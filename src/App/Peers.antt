-- ===== src/App/Peers.antt =====
-- Whom the automatic replies go to: the sources of the messages that are answered, and the
-- destinations of the replies.
use thicket_firmware.Base.{
  sym, ◌∙◌, append-nil, append_assoc, ◌≡◌, ◌≢◌, ap, Bool, true, not, ◌&&◌, List, [], ◌∷◌, ◌++◌,
  length, if◌then◌else◌, All, equal, ◌==◌,
}
use thicket_firmware.Base.Picks.{Picks}
use thicket_firmware.App.Platform.{Bytes}
use thicket_firmware.App.Device.{
  Setting, Device, Action, announced, outbound, pinned, Inbound, Round, ReplyRequest, boot, timer,
  auto_reply, timed_send, hash_size,
}

module _ (c : Setting) where
  -- A hash that a reply may go to.
  abbrev pub IsPeer : Bytes → Type 0
  IsPeer to = (length to ≡ hash_size) × (to ≢ c.delivery_hash)

  -- A message that is answered.
  abbrev pub answered : Inbound c → Bool
  answered m = length m.source_hash == hash_size && not (equal m.source_hash c.delivery_hash)

  -- The sources of the messages that are answered, in their order.
  unfoldable pub peers : List (Inbound c) → List Bytes
  peers [] = []
  peers (m ∷ ms) = if answered m then m.source_hash ∷ peers ms else peers ms

  unfoldable pub arrivals : List (Round c) → List Bytes
  arrivals [] = []
  arrivals (r ∷ rs) = peers r.delivered ++ arrivals rs

  -- Who an automatic reply goes to; of the other actions nothing is asked.
  abbrev pub Polite : Action → Type 0
  Polite (outbound auto_reply to body) = IsPeer to
  Polite (outbound boot to body) = Unit
  Polite (outbound timer to body) = Unit
  Polite (outbound timed_send to body) = Unit
  Polite (announced why t) = Unit
  Polite (pinned to) = Unit

  abbrev pub reply_to : Action → List Bytes
  reply_to (outbound auto_reply to body) = to ∷ []
  reply_to (outbound boot to body) = []
  reply_to (outbound timer to body) = []
  reply_to (outbound timed_send to body) = []
  reply_to (announced why t) = []
  reply_to (pinned to) = []

  -- Whom the automatic replies went to, in their order.
  unfoldable pub replies : List Action → List Bytes
  unfolding reply_to
  replies [] = []
  replies (a ∷ ls) = reply_to a ++ replies ls

  pub replies-snoc :
      (ls : List Action) (a : Action) → replies (ls ++ a ∷ []) ≡ replies ls ++ reply_to a
  unfolding replies
  replies-snoc [] a = append-nil (reply_to a)
  replies-snoc (b ∷ ls) a =
      ap (λ t. reply_to b ++ t) (replies-snoc ls a)
      ∙ sym (append_assoc (reply_to b) (replies ls) (reply_to a))

  -- Whom the pending reply will go to, if there is one.
  abbrev pub pending : ReplyRequest c → List Bytes
  pending q = if q.armed then q.to ∷ [] else []

-- The replies so far went to peers, so will the pending one, and with it they are what is left of
-- `sources`, in order, when some are taken out.
pub record IsPolite (c : Setting) (sources : List Bytes) (s : Device c) : Type 0 where
  pub past : All (Polite c) s.log
  pub next : s.reply.armed ≡ true → IsPeer c s.reply.to
  pub order : Picks (replies c s.log ++ pending c s.reply) sources
