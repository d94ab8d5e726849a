-- ===== src/App/Device.antt =====
-- src/main.cpp: the state of the running application, its messages out and in, and one round of
-- `thicket_work`. What the round asks of the router is in the log of actions. Each read of a clock
-- is a value of its own; `OS::time()`, in seconds, is counted in thousandths.
use thicket_firmware.Base.{
  ℕ, ◌+◌, ◌-◌, ◌*◌, ◌^◌, Bool, true, false, not, ◌&&◌, Option, none, some, List, [], ◌∷◌, ◌++◌,
  length, ltb, leb, ◌==◌, if◌then◌else◌, equal, u32, ℤ,
}
use thicket_firmware.App.Platform.{Bytes}
use thicket_firmware.App.Diag.{body_buf, build_diag_body}

abbrev pub reply_delay_ms : ℕ
reply_delay_ms = 1500

-- ANNOUNCE_INTERVAL_S.
abbrev pub announce_interval : ℕ
announce_interval = 1800 * 1000

abbrev pub hash_size : ℕ
hash_size = 16

pub data Reason : Type 0 where
  boot timer auto_reply timed_send : Reason

-- What the application asks of router and transport.
pub data Action : Type 0 where
  announced : Reason → ℕ → Action
  outbound : Reason → Bytes → Bytes → Action
  pinned : Bytes → Action

-- What is fixed in a build and a boot: the radio's numbers, the texts of the hashes, the flags
-- THICKET_HAVE_STORE and RNS_PINNED_DESTINATIONS, the interval of THICKET_AUTOSEND_INTERVAL_S.
pub record Setting : Type 1 where
  pub Float : Type 0
  pub lroundf : Float → ℤ
  pub times_ten : Float → Float
  pub float_zero : Float
  pub identity_hex : Bytes
  pub delivery_hash : Bytes
  pub have_store : Bool
  pub pinning : Bool
  pub autosend_interval : Option ℕ

-- How the sending of a message ends: with the message taken by `handle_outbound` and what
-- `save_message` then returns; without, where no memory is left or `handle_outbound` throws; or with
-- the message taken and a throw after that, from `save_message` or, with what that returned, from
-- the report on the store.
pub data Outcome : Type 0 where
  queued : Bool → Outcome
  failed : Outcome
  cut_short : Option Bool → Outcome

module _ (c : Setting) where
  pub record ReplyRequest : Type 0 where
    pub armed : Bool
    pub due_ms : ℕ
    pub to : Bytes
    pub signal_valid : Bool
    pub rssi : c.Float
    pub snr : c.Float

  pub record Device : Type 0 where
    pub stack_up : Bool
    pub router : Bool
    pub last_announce : ℕ
    pub send_counter : ℕ
    pub reply : ReplyRequest
    pub saved_in : ℕ
    pub saved_out : ℕ
    pub save_failures : ℕ
    pub autosend_dest : Bytes
    pub autosend_ok : Bool
    pub last_autosend : ℕ
    pub blink_last : ℕ
    pub blink_on : Bool
    pub log : List Action

  abbrev pub logged : Action → Device → Device
  logged a s = record s { log = s.log ++ a ∷ [] }

  -- `store_message`, with what `save_message` returns.
  unfoldable pub store_message : Bool → Bool → Device → Device
  store_message saved inbound s =
      if not c.have_store
      then s
      else if saved
      then if inbound
        then record s { saved_in = u32 (s.saved_in + 1) }
        else record s { saved_out = u32 (s.saved_out + 1) }
      else record s { save_failures = u32 (s.save_failures + 1) }

  unfoldable pub take_outbound : Reason → Bytes → Bytes → Outcome → Device → Bool × Device
  take_outbound why to body failed s = (false, s)
  take_outbound why to body (cut_short none) s = (false, logged (outbound why to body) s)
  take_outbound why to body (cut_short (some saved)) s =
      (false, store_message saved false (logged (outbound why to body) s))
  take_outbound why to body (queued saved) s =
      let s' = store_message saved false (logged (outbound why to body) s) in
      (true, record s' { send_counter = u32 (s'.send_counter + 1) })

  unfoldable pub send_lxmf : Bytes → Bytes → Reason → Outcome → Device → Bool × Device
  send_lxmf destination_hash body why outcome s =
      if not s.router
      then (false, s)
      else if not (length destination_hash == hash_size)
      then (false, s)
      else take_outbound why destination_hash body outcome s

  -- `announce`, with the time that it reads.
  unfoldable pub announce : Reason → ℕ → Device → Device
  announce why now s =
      if not s.router then s else record (logged (announced why now) s) { last_announce = now }

  -- A message that arrives: its source, what `save_message` returns, `millis()`, and the radio's
  -- figures where it has any.
  pub record Inbound : Type 0 where
    pub source_hash : Bytes
    pub saved : Bool
    pub at_ms : ℕ
    pub signal : Option (c.Float × c.Float)

  abbrev pub signal_valid? : Option (c.Float × c.Float) → Bool
  signal_valid? none = false
  signal_valid? (some p) = true

  abbrev pub rssi_of : Option (c.Float × c.Float) → c.Float
  rssi_of none = c.float_zero
  rssi_of (some p) = p.0

  abbrev pub snr_of : Option (c.Float × c.Float) → c.Float
  snr_of none = c.float_zero
  snr_of (some p) = p.1

  unfoldable pub arm_reply : Inbound → Device → Device
  arm_reply m s = record (if c.pinning then logged (pinned m.source_hash) s else s) {
    reply = record {
      armed = true;
      due_ms = u32 (m.at_ms + reply_delay_ms);
      to = m.source_hash;
      signal_valid = signal_valid? m.signal;
      rssi = rssi_of m.signal;
      snr = snr_of m.signal;
    };
  }

  -- The delivery callback.
  unfoldable pub on_delivery : Inbound → Device → Device
  on_delivery m s =
      let s' = store_message m.saved true s in
      if not (length m.source_hash == hash_size)
      then s'
      else if equal m.source_hash c.delivery_hash
      then s'
      else arm_reply m s'

  unfoldable pub deliver : List Inbound → Device → Device
  deliver [] s = s
  deliver (m ∷ ms) s = deliver ms (on_delivery m s)

  -- What the environment does in one round; `thrown` says that the stack throws, which ends it.
  pub record Round : Type 0 where
    pub blink_ms : ℕ
    pub delivered : List Inbound
    pub thrown : Bool
    pub announce_check : ℕ
    pub announce_time : ℕ
    pub reply_check : ℕ
    pub reply_ms : ℕ
    pub reply_outcome : Outcome
    pub autosend_check : ℕ
    pub autosend_time : ℕ
    pub autosend_signal : Option (c.Float × c.Float)
    pub autosend_ms : ℕ
    pub autosend_outcome : Outcome

  -- Bring-up failed: blink.
  unfoldable pub blink : ℕ → Device → Device
  blink now s =
      if leb 120 (u32 (now + 2 ^ 32 - s.blink_last))
      then record s { blink_last = now; blink_on = not s.blink_on }
      else s

  unfoldable pub announce_step : Round → Device → Device
  announce_step r s =
      if ltb (s.last_announce + announce_interval) r.announce_check
      then announce timer r.announce_time s
      else s

  -- `(int32_t)(millis() - g_reply.due_ms) >= 0`.
  unfoldable pub reply_due : ℕ → ReplyRequest → Bool
  reply_due now q = q.armed && ltb (u32 (now + 2 ^ 32 - q.due_ms)) (2 ^ 31)

  abbrev pub body_of : ℕ → Bool → c.Float → c.Float → Device → Bytes
  body_of now valid rssi snr s =
      (build_diag_body c.Float c.lroundf c.times_ten s.send_counter now c.identity_hex body_buf
        valid rssi snr).1

  unfoldable pub reply_step : Round → Device → Device
  reply_step r s =
      let q = s.reply in
      if reply_due r.reply_check q
      then (send_lxmf q.to (body_of r.reply_ms q.signal_valid q.rssi q.snr s) auto_reply
          r.reply_outcome (record s { reply = record q { armed = false } })).1
      else s

  unfoldable pub autosend_due : Option ℕ → ℕ → Device → Bool
  autosend_due none now s = false
  autosend_due (some interval) now s = s.autosend_ok && ltb (s.last_autosend + interval) now

  unfoldable pub autosend_step : Round → Device → Device
  autosend_step r s =
      let g = r.autosend_signal in
      if autosend_due c.autosend_interval r.autosend_check s
      then (send_lxmf s.autosend_dest
          (body_of r.autosend_ms (signal_valid? g) (rssi_of g) (snr_of g) s) timed_send
          r.autosend_outcome (record s { last_autosend = r.autosend_time })).1
      else s

  unfoldable pub thicket_work : Round → Device → Device
  thicket_work r s =
      if not s.stack_up
      then blink r.blink_ms s
      else (let s' = deliver r.delivered s in
          if r.thrown then s' else autosend_step r (reply_step r (announce_step r s')))

  -- `thicket_task`, round by round.
  unfoldable pub thicket_task : List Round → Device → Device
  thicket_task [] s = s
  thicket_task (r ∷ rs) s = thicket_task rs (thicket_work r s)
