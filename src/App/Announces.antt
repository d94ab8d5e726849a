-- ===== src/App/Announces.antt =====
-- How often the device announces itself.
use thicket_firmware.Base.{
  some, none, ℕ, ◌+◌, ◌≤◌, ◌<◌, ◌≡◌, refl, ◌∙◌, arith, Bool, true, false, not, List, [], ◌∷◌, ◌++◌,
  if_elim, ltb, ltb→lt, equal, All,
}
use thicket_firmware.App.Platform.{Bytes}
use thicket_firmware.App.Device.{
  Setting, Device, Action, Reason, announced, outbound, pinned, Outcome, queued, failed, cut_short,
  Inbound, Round, timer, auto_reply, timed_send, announce_interval, logged, store_message,
  take_outbound, send_lxmf, announce, arm_reply, on_delivery, deliver, blink, announce_step,
  reply_step, autosend_step, thicket_work, thicket_task, body_of, reply_due, autosend_due,
  signal_valid?, rssi_of, snr_of,
}
use thicket_firmware.App.Sending.{send_lxmf_elim, thicket_work_elim}

-- The times of the announces in a log, the last first.
unfoldable pub times : List Action → List ℕ
times [] = []
times (announced why t ∷ ls) = times ls ++ t ∷ []
times (outbound why to body ∷ ls) = times ls
times (pinned to ∷ ls) = times ls

-- Each announce comes more than an interval after the one before.
abbrev pub Spaced : List ℕ → Type 0
Spaced [] = Unit
Spaced (t ∷ []) = Unit
Spaced (t ∷ u ∷ ts) = (u + announce_interval < t) × Spaced (u ∷ ts)

-- The last announce is the one that the device remembers.
abbrev pub Last : ℕ → List ℕ → Type 0
Last now [] = Unit
Last now (t ∷ ts) = t ≡ now

pub record IsSpaced (c : Setting) (s : Device c) : Type 0 where
  pub spaced : Spaced (times s.log)
  pub last : Last s.last_announce (times s.log)

times-append-announced :
    (ls : List Action) (why : Reason) (t : ℕ) → times (ls ++ announced why t ∷ []) ≡ t ∷ times ls
unfolding times
times-append-announced [] why t = refl
times-append-announced (announced w u ∷ ls) why t = rw (times-append-announced ls why t) refl
times-append-announced (outbound w to body ∷ ls) why t = times-append-announced ls why t
times-append-announced (pinned to ∷ ls) why t = times-append-announced ls why t

-- Any other action leaves the times.
times-append :
    (ls : List Action) (a : Action) → times (a ∷ []) ≡ [] → times (ls ++ a ∷ []) ≡ times ls
unfolding times
times-append [] a e = e
times-append (announced w u ∷ ls) a e = rw (times-append ls a e) refl
times-append (outbound w to body ∷ ls) a e = times-append ls a e
times-append (pinned to ∷ ls) a e = times-append ls a e

module _ (c : Setting) where
  -- What announces nothing.
  pub record Silent (s t : Device c) : Type 0 where
    pub log : times t.log ≡ times s.log
    pub last : t.last_announce ≡ s.last_announce

  Silent-trans : {s t u : Device c} → Silent s t → Silent t u → Silent s u
  Silent-trans h k = record { log = k.log ∙ h.log; last = k.last ∙ h.last }

  Silent-IsSpaced : {s t : Device c} → Silent s t → IsSpaced c s → IsSpaced c t
  Silent-IsSpaced q n = record { spaced = rw q.log n.spaced; last = rw (q.log, q.last) n.last }

  store_message-Silent :
      (saved inbound : Bool) (s : Device c) → Silent s (store_message c saved inbound s)
  unfolding store_message
  store_message-Silent saved inbound s = record { log = ground arith; last = ground arith }

  arm_reply-Silent : (m : Inbound c) (s : Device c) → Silent s (arm_reply c m s)
  unfolding arm_reply times
  arm_reply-Silent m s =
      let pin = times-append s.log (pinned m.source_hash) refl in
      record { log = ground (arith, pin); last = ground arith }

  on_delivery-Silent : (m : Inbound c) (s : Device c) → Silent s (on_delivery c m s)
  unfolding on_delivery
  on_delivery-Silent m s =
      let stored = store_message-Silent m.saved true s in
      if_elim (Silent s) _ (λ _. stored)
        λ _.
          if_elim (Silent s) (equal m.source_hash c.delivery_hash) (λ _. stored)
            λ _. Silent-trans stored (arm_reply-Silent m (store_message c m.saved true s))

  deliver-Silent : (ms : List (Inbound c)) (s : Device c) → Silent s (deliver c ms s)
  unfolding deliver
  deliver-Silent [] s = record { log = refl; last = refl }
  deliver-Silent (m ∷ ms) s =
      Silent-trans (on_delivery-Silent m s) (deliver-Silent ms (on_delivery c m s))

  blink-Silent : (now : ℕ) (s : Device c) → Silent s (blink c now s)
  unfolding blink
  blink-Silent now s = record { log = ground arith; last = ground arith }

  take_outbound-Silent :
      (why : Reason) (to body : Bytes) (o : Outcome) (s : Device c)
      → Silent s (take_outbound c why to body o s).1
  unfolding take_outbound times
  take_outbound-Silent why to body failed s = record { log = refl; last = refl }
  take_outbound-Silent why to body (cut_short none) s = record {
    log = times-append s.log (outbound why to body) refl;
    last = refl;
  }
  take_outbound-Silent why to body (cut_short (some saved)) s =
      let kept = store_message-Silent saved false (logged c (outbound why to body) s) in
      record { log = kept.log ∙ times-append s.log (outbound why to body) refl; last = kept.last }
  take_outbound-Silent why to body (queued saved) s =
      let kept = store_message-Silent saved false (logged c (outbound why to body) s) in
      record { log = kept.log ∙ times-append s.log (outbound why to body) refl; last = kept.last }

  send_lxmf-Silent :
      (to body : Bytes) (why : Reason) (o : Outcome) (s : Device c)
      → Silent s (send_lxmf c to body why o s).1
  send_lxmf-Silent to body why o s =
      send_lxmf_elim c (Silent s) to body why o (record { log = refl; last = refl })
        (take_outbound-Silent why to body o s)

  reply_step-Silent : (r : Round c) (s : Device c) → Silent s (reply_step c r s)
  unfolding reply_step
  reply_step-Silent r s =
      let q = s.reply in
      if_elim (Silent s) (reply_due c r.reply_check q)
        (λ _.
          let sent =
            send_lxmf-Silent q.to (body_of c r.reply_ms q.signal_valid q.rssi q.snr s) auto_reply
              r.reply_outcome (record s { reply = record q { armed = false } }) in
          record { log = sent.log; last = sent.last })
        (λ _. record { log = refl; last = refl })

  autosend_step-Silent : (r : Round c) (s : Device c) → Silent s (autosend_step c r s)
  unfolding autosend_step
  autosend_step-Silent r s =
      let g = r.autosend_signal in
      if_elim (Silent s) (autosend_due c c.autosend_interval r.autosend_check s)
        (λ _.
          let sent =
            send_lxmf-Silent s.autosend_dest
              (body_of c r.autosend_ms (signal_valid? c g) (rssi_of c g) (snr_of c g) s) timed_send
              r.autosend_outcome (record s { last_autosend = r.autosend_time }) in
          record { log = sent.log; last = sent.last })
        (λ _. record { log = refl; last = refl })

  -- The clock does not run back between the test and the announce.
  abbrev pub Forward : Round c → Type 0
  Forward r = r.announce_check ≤ r.announce_time

  spaced_next :
      (last t : ℕ) (ts : List ℕ)
      → last + announce_interval < t
      → Last last ts
      → Spaced ts
      → Spaced (t ∷ ts)
  spaced_next last t [] late e spaced = tt
  spaced_next last t (u ∷ ts) late e spaced = (omega (arith, e), spaced)

  announce_step-IsSpaced :
      (r : Round c) (s : Device c) → Forward r → IsSpaced c s → IsSpaced c (announce_step c r s)
  unfolding announce_step announce
  announce_step-IsSpaced r s forward n =
      let t = r.announce_time in
      if_elim (IsSpaced c) (ltb (s.last_announce + announce_interval) r.announce_check)
        (λ late.
          if_elim (IsSpaced c) (not s.router) (λ _. n)
            λ _. record {
              spaced = rw (times-append-announced s.log timer t) (
                  spaced_next s.last_announce t (times s.log)
                    (omega
                      (arith, ltb→lt (s.last_announce + announce_interval) r.announce_check late))
                    n.last n.spaced);
              last = rw (times-append-announced s.log timer t) refl;
            })
        (λ _. n)

  thicket_work-IsSpaced :
      (r : Round c) (s : Device c) → Forward r → IsSpaced c s → IsSpaced c (thicket_work c r s)
  thicket_work-IsSpaced r s forward n =
      let s' = deliver c r.delivered s in
      let n' = Silent-IsSpaced (deliver-Silent r.delivered s) n in
      let t = announce_step c r s' in
      thicket_work_elim c (IsSpaced c) r s (Silent-IsSpaced (blink-Silent r.blink_ms s) n) n' (
        Silent-IsSpaced (autosend_step-Silent r (reply_step c r t))
          (Silent-IsSpaced (reply_step-Silent r t) (announce_step-IsSpaced r s' forward n')))

  -- Over any run of the work task, where no round's clock runs back between its test and its
  -- announce: each announce comes more than 1800 seconds after the one before, the boot's among
  -- them, and the device remembers the last.
  pub thicket_task-IsSpaced :
      (rs : List (Round c)) (s : Device c)
      → All Forward rs
      → IsSpaced c s
      → IsSpaced c (thicket_task c rs s)
  unfolding thicket_task
  thicket_task-IsSpaced [] s forward n = n
  thicket_task-IsSpaced (r ∷ rs) s forward n =
      thicket_task-IsSpaced rs (thicket_work c r s) forward.1
        (thicket_work-IsSpaced r s forward.0 n)
