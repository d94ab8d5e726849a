-- ===== src/Render/State.antt =====
-- lib/MicronRender/src/MicronRender.h: the renderer's state, and what it sees of the parser's
-- types. Those are another library's: they have here the fields that the renderer reads. The
-- calls of the display are a list, oldest first. A run of text is the bytes from its start on, as
-- a function, with its length beside it.
use thicket_firmware.Base.{ℕ, ◌*◌, Bool, true, false, List, [], get_or, replicate}
use thicket_firmware.Base.Memory.{Memory}
use thicket_firmware.Lcd.TextCalls.{BoldFace}
use thicket_firmware.Render.Ink.{Color}

abbrev pub max_missing : ℕ
max_missing = 24

abbrev pub max_links : ℕ
max_links = 48

abbrev pub table_max_rows : ℕ
table_max_rows = 16

abbrev pub table_max_cols : ℕ
table_max_cols = 6

abbrev pub table_max_bytes : ℕ
table_max_bytes = 1024

-- The calls of the display that the renderer makes.
pub data Call : Type 0 where
  rect_call : ℕ → ℕ → ℕ → ℕ → Bool → Call
  dither_call : ℕ → ℕ → ℕ → ℕ → ℕ → Call
  hline_call : ℕ → ℕ → ℕ → Bool → Call
  text_call : ℕ → ℕ → List ℕ → Bool → Call
  big_call : ℕ → ℕ → List ℕ → Bool → Call
  bold_call : ℕ → ℕ → List ℕ → BoldFace → Bool → Call

pub data Align : Type 0 where
  left : Align
  center : Align
  right : Align

pub record Style : Type 0 where
  pub depth : ℕ
  pub align : Align
  pub bg : Color
  pub heading : Bool
  pub bold : Bool
  pub underline : Bool
  pub literal : Bool

-- A field is a text, a radio button or, otherwise, a checkbox.
pub data FieldKind : Type 0 where
  text : FieldKind
  radio : FieldKind
  checkbox : FieldKind

pub record Field : Type 0 where
  pub kind : FieldKind
  pub width : ℕ
  pub masked : Bool
  pub prechecked : Bool
  pub value : Memory
  pub value_len : ℕ
  pub label : Memory
  pub label_len : ℕ

pub record Image : Type 0 where
  pub alt : Memory
  pub alt_len : ℕ
  pub url : Memory
  pub url_len : ℕ

pub record LinkBox : Type 0 where
  pub x : ℕ
  pub y : ℕ
  pub w : ℕ
  pub h : ℕ
  pub target : Memory
  pub target_len : ℕ

pub record Missing : Type 0 where
  pub cp : ℕ
  pub n : ℕ

-- The buffer of a table. `cell_off` and `cell_len` are indexed by `r * 6 + col`.
pub record TableState : Type 0 where
  pub in_table : Bool
  pub table_row : ℕ
  pub table_cols : ℕ
  pub col_w : List ℕ
  pub table_align : Align
  pub tbuf : Memory
  pub tlen : ℕ
  pub cell_off : List ℕ
  pub cell_len : List ℕ
  pub t_rows : ℕ
  pub table_overflowed : Bool

-- `missing` and `links` are the live parts of the arrays `_missing` and `_links`, `calls` is what
-- the display was told.
pub record PageRenderer : Type 0 where
  pub leading : ℕ
  pub stepped : Bool
  pub head2x : Bool
  pub dither : Bool
  pub big : Bool
  pub head : ℕ
  pub bold : Bool
  pub underline : Bool
  pub row_h : ℕ
  pub scroll : ℕ
  pub y : ℕ
  pub x : ℕ
  pub row_open : Bool
  pub depth : ℕ
  pub invert : Bool
  pub head_rule : Bool
  pub literal : Bool
  pub has_bg : Bool
  pub bg_luma : ℕ
  pub blank_pending : Bool
  pub table : TableState
  pub links : List LinkBox
  pub links_overflowed : Bool
  pub missing : List Missing
  pub missing_total : ℕ
  pub missing_over : Bool
  pub calls : List Call

-- The bytes of the arrays that the class does not initialise are 0.
abbrev pub empty_table : TableState
empty_table = record {
  in_table = false;
  table_row = 0;
  table_cols = 0;
  col_w = replicate table_max_cols 0;
  table_align = Align.left;
  tbuf = λ i. 0;
  tlen = 0;
  cell_off = replicate (table_max_rows * table_max_cols) 0;
  cell_len = replicate (table_max_rows * table_max_cols) 0;
  t_rows = 0;
  table_overflowed = false;
}

-- The constructor.
abbrev pub page_renderer : ℕ → Bool → Bool → Bool → PageRenderer
page_renderer extra_leading stepped_heads head_2x dither = record {
  leading = extra_leading;
  stepped = stepped_heads;
  head2x = head_2x;
  dither = dither;
  big = false;
  head = 0;
  bold = false;
  underline = false;
  row_h = 0;
  scroll = 0;
  y = 0;
  x = 0;
  row_open = false;
  depth = 0;
  invert = false;
  head_rule = false;
  literal = false;
  has_bg = false;
  bg_luma = 255;
  blank_pending = true;
  table = empty_table;
  links = [];
  links_overflowed = false;
  missing = [];
  missing_total = 0;
  missing_over = false;
  calls = [];
}

-- `begin` restarts the layout; the faces of the row, its height and the table's buffer stay.
unfoldable pub begin : ℕ → PageRenderer → PageRenderer
begin scroll_y p = record p {
  scroll = scroll_y;
  y = 0;
  x = 0;
  row_open = false;
  depth = 0;
  invert = false;
  table = record p.table { in_table = false; table_row = 0; table_cols = 0 };
  links = [];
  links_overflowed = false;
  missing = [];
  missing_total = 0;
  missing_over = false;
  blank_pending = true;
}

-- The bytes of a string literal.
abbrev pub string : List ℕ → Memory
string bytes i = get_or bytes i 0
