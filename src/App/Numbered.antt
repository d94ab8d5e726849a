-- ===== src/App/Numbered.antt =====
-- The numbers in the messages that leave the device.
use thicket_firmware.Base.{
  ℕ, zero, suc, ◌^◌, ◌<◌, ◌≡◌, refl, sym, ap, ap₂, ◌∙◌, arith, Bool, true, false, List, [], ◌∷◌,
  ◌++◌, append-nil, length, length-append, Bool-cases, inl, inr, u32, All,
}
use thicket_firmware.App.Platform.{Bytes}
use thicket_firmware.App.Body.{read_body, read_body-build_diag_body}
use thicket_firmware.App.Device.{
  Setting, Device, Action, Reason, announced, outbound, pinned, Outcome, queued, failed, cut_short,
  Inbound, Round, timer, auto_reply, timed_send, logged, store_message, take_outbound, send_lxmf,
  announce, arm_reply, on_delivery, deliver, blink, announce_step, body_of, reply_step,
  autosend_step, reply_due, autosend_due, thicket_work, thicket_task, signal_valid?, rssi_of,
  snr_of,
}
use thicket_firmware.App.Sending.{send_lxmf_elim, thicket_work_elim}

module _ (c : Setting) where
  -- The numbers that the peers read, in the order of the messages.
  unfoldable pub numbers : List Action → List ℕ
  numbers [] = []
  numbers (announced why t ∷ ls) = numbers ls
  numbers (outbound why to body ∷ ls) =
      (read_body c.Float c.lroundf c.times_ten body).0 ∷ numbers ls
  numbers (pinned to ∷ ls) = numbers ls

-- The first numbers from 0 on, at 32 bits.
unfoldable pub upto : ℕ → List ℕ
upto zero = []
upto (suc n) = upto n ++ u32 n ∷ []

pub record IsNumbered (c : Setting) (s : Device c) : Type 0 where
  pub counter : s.send_counter ≡ u32 (length (numbers c s.log))
  pub in_order : numbers c s.log ≡ upto (length (numbers c s.log))

module _ (c : Setting) where
  numbers-append : (ls bs : List Action) → numbers c (ls ++ bs) ≡ numbers c ls ++ numbers c bs
  unfolding numbers
  numbers-append [] bs = refl
  numbers-append (announced why t ∷ ls) bs = numbers-append ls bs
  numbers-append (outbound why to body ∷ ls) bs =
      ap (λ t. (read_body c.Float c.lroundf c.times_ten body).0 ∷ t) (numbers-append ls bs)
  numbers-append (pinned to ∷ ls) bs = numbers-append ls bs

  -- What leaves the numbers and the counter alone.
  pub record Quiet (s t : Device c) : Type 0 where
    pub counter : t.send_counter ≡ s.send_counter
    pub log : numbers c t.log ≡ numbers c s.log

  Quiet-IsNumbered : {s t : Device c} → Quiet s t → IsNumbered c s → IsNumbered c t
  Quiet-IsNumbered q n = record {
    counter = rw q.log (q.counter ∙ n.counter);
    in_order = rw q.log n.in_order;
  }

  Quiet-log : (a : Action) (s : Device c) → numbers c (a ∷ []) ≡ [] → Quiet s (logged c a s)
  Quiet-log a s e = record {
    counter = refl;
    log = numbers-append s.log (a ∷ []) ∙ rw e (append-nil (numbers c s.log));
  }

  store_message-Quiet :
      (saved inbound : Bool) (s : Device c) → Quiet s (store_message c saved inbound s)
  unfolding store_message
  store_message-Quiet saved inbound s = record { counter = ground arith; log = ground arith }

  announce-Quiet : (why : Reason) (now : ℕ) (s : Device c) → Quiet s (announce c why now s)
  unfolding announce numbers
  announce-Quiet why now s =
      let quiet = Quiet-log (announced why now) s refl in
      record { counter = ground arith; log = ground (arith, quiet.log) }

  arm_reply-Quiet : (m : Inbound c) (s : Device c) → Quiet s (arm_reply c m s)
  unfolding arm_reply numbers
  arm_reply-Quiet m s =
      let quiet = Quiet-log (pinned m.source_hash) s refl in
      record { counter = ground arith; log = ground (arith, quiet.log) }

  on_delivery-Quiet : (m : Inbound c) (s : Device c) → Quiet s (on_delivery c m s)
  unfolding on_delivery
  on_delivery-Quiet m s =
      let stored = store_message-Quiet m.saved true s in
      let armed = arm_reply-Quiet m (store_message c m.saved true s) in
      record {
        counter = ground (arith, stored.counter, armed.counter);
        log = ground (arith, stored.log, armed.log);
      }

  deliver-Quiet : (ms : List (Inbound c)) (s : Device c) → Quiet s (deliver c ms s)
  unfolding deliver
  deliver-Quiet [] s = record { counter = refl; log = refl }
  deliver-Quiet (m ∷ ms) s =
      let first = on_delivery-Quiet m s in
      let rest = deliver-Quiet ms (on_delivery c m s) in
      record { counter = rest.counter ∙ first.counter; log = rest.log ∙ first.log }

  announce_step-Quiet : (r : Round c) (s : Device c) → Quiet s (announce_step c r s)
  unfolding announce_step
  announce_step-Quiet r s =
      let quiet = announce-Quiet timer r.announce_time s in
      record { counter = ground (arith, quiet.counter); log = ground (arith, quiet.log) }

  blink-Quiet : (now : ℕ) (s : Device c) → Quiet s (blink c now s)
  unfolding blink
  blink-Quiet now s = record { counter = ground arith; log = ground arith }

  -- The numbers after a message whose body reads as the counter.
  numbers-logged :
      (why : Reason) (to body : Bytes) (s : Device c)
      → (read_body c.Float c.lroundf c.times_ten body).0 ≡ s.send_counter
      → numbers c (logged c (outbound why to body) s).log ≡ numbers c s.log ++ s.send_counter ∷ []
  unfolding numbers
  numbers-logged why to body s e = numbers-append s.log (outbound why to body ∷ []) ∙ rw e refl

  -- A message is not cut short: nothing throws once the router has it.
  abbrev pub IsWhole : Outcome → Type 0
  IsWhole (queued saved) = Unit
  IsWhole failed = Unit
  IsWhole (cut_short at) = ⊥

  take_outbound-IsNumbered :
      (why : Reason) (to body : Bytes) (o : Outcome) (s : Device c)
      → IsWhole o
      → (read_body c.Float c.lroundf c.times_ten body).0 ≡ s.send_counter
      → IsNumbered c s
      → IsNumbered c (take_outbound c why to body o s).1
  unfolding take_outbound upto
  take_outbound-IsNumbered why to body failed s whole e n = n
  take_outbound-IsNumbered why to body (cut_short at) s whole e n = absurd whole
  take_outbound-IsNumbered why to body (queued saved) s whole e n =
      let sent = logged c (outbound why to body) s in
      let quiet = store_message-Quiet saved false sent in
      let all = quiet.log ∙ numbers-logged why to body s e in
      let more = length-append (numbers c s.log) (s.send_counter ∷ []) in
      let size : length (numbers c (store_message c saved false sent).log)
          ≡ suc (length (numbers c s.log)) =
        ap length all ∙ omega (arith, more) in
      record {
        counter = omega (arith, size, quiet.counter, n.counter);
        in_order = all ∙ ap₂ (λ xs x. xs ++ x ∷ []) n.in_order n.counter ∙ ap upto (sym size);
      }

  send_lxmf-IsNumbered :
      (to body : Bytes) (why : Reason) (o : Outcome) (s : Device c)
      → IsWhole o
      → (read_body c.Float c.lroundf c.times_ten body).0 ≡ s.send_counter
      → IsNumbered c s
      → IsNumbered c (send_lxmf c to body why o s).1
  send_lxmf-IsNumbered to body why o s whole e n =
      send_lxmf_elim c (IsNumbered c) to body why o n
        (take_outbound-IsNumbered why to body o s whole e n)

  -- A body that is made now carries the counter.
  body_of-counter :
      (now : ℕ) (valid : Bool) (rssi snr : c.Float) (s : Device c)
      → now < 2 ^ 32
      → IsNumbered c s
      → (read_body c.Float c.lroundf c.times_ten (body_of c now valid rssi snr s)).0
        ≡ s.send_counter
  body_of-counter now valid rssi snr s fits n =
      ap (λ p. p.0)
        (read_body-build_diag_body c.Float c.lroundf c.times_ten s.send_counter now c.identity_hex
          valid rssi snr (omega (arith, n.counter)) fits)

  -- The clock of a round's bodies has 32 bits, and its messages are not cut short.
  pub record IsCalm (r : Round c) : Type 0 where
    pub reply_ms : r.reply_ms < 2 ^ 32
    pub autosend_ms : r.autosend_ms < 2 ^ 32
    pub reply : IsWhole r.reply_outcome
    pub autosend : IsWhole r.autosend_outcome

  reply_step-IsNumbered :
      (r : Round c) (s : Device c) → IsCalm r → IsNumbered c s → IsNumbered c (reply_step c r s)
  unfolding reply_step
  reply_step-IsNumbered r s calm n =
      let q = s.reply in
      elim (Bool-cases (reply_due c r.reply_check q)) [
        | inr early ↦ rw early n
        | inl due ↦ rw due (
            send_lxmf-IsNumbered q.to (body_of c r.reply_ms q.signal_valid q.rssi q.snr s)
              auto_reply r.reply_outcome (record s { reply = record q { armed = false } })
              calm.reply (body_of-counter r.reply_ms q.signal_valid q.rssi q.snr s calm.reply_ms n)
              (record { counter = n.counter; in_order = n.in_order }))
      ]

  autosend_step-IsNumbered :
      (r : Round c) (s : Device c) → IsCalm r → IsNumbered c s → IsNumbered c (autosend_step c r s)
  unfolding autosend_step
  autosend_step-IsNumbered r s calm n =
      let g = r.autosend_signal in
      elim (Bool-cases (autosend_due c c.autosend_interval r.autosend_check s)) [
        | inr early ↦ rw early n
        | inl due ↦ rw due (
            send_lxmf-IsNumbered s.autosend_dest
              (body_of c r.autosend_ms (signal_valid? c g) (rssi_of c g) (snr_of c g) s) timed_send
              r.autosend_outcome (record s { last_autosend = r.autosend_time }) calm.autosend
              (body_of-counter r.autosend_ms (signal_valid? c g) (rssi_of c g) (snr_of c g) s
                calm.autosend_ms n)
              (record { counter = n.counter; in_order = n.in_order }))
      ]

  thicket_work-IsNumbered :
      (r : Round c) (s : Device c) → IsCalm r → IsNumbered c s → IsNumbered c (thicket_work c r s)
  thicket_work-IsNumbered r s words n =
      let s' = deliver c r.delivered s in
      let n' = Quiet-IsNumbered (deliver-Quiet r.delivered s) n in
      let t = announce_step c r s' in
      thicket_work_elim c (IsNumbered c) r s (Quiet-IsNumbered (blink-Quiet r.blink_ms s) n) n' (
        autosend_step-IsNumbered r (reply_step c r t) words
          (reply_step-IsNumbered r t words (Quiet-IsNumbered (announce_step-Quiet r s') n')))

  -- Over any run of the work task, with clocks of 32 bits and no throw between the router's taking
  -- a message and its being counted, from a device whose messages so far are numbered: the messages
  -- that the router has taken carry, as a peer reads them, the numbers from 0 on in order, at 32
  -- bits, none missing and none twice, and the counter is the number of the next. So it is
  -- whatever arrives, and whatever messages the router does not take.
  pub thicket_task-IsNumbered :
      (rs : List (Round c)) (s : Device c)
      → All IsCalm rs
      → IsNumbered c s
      → IsNumbered c (thicket_task c rs s)
  unfolding thicket_task
  thicket_task-IsNumbered [] s words n = n
  thicket_task-IsNumbered (r ∷ rs) s words n =
      thicket_task-IsNumbered rs (thicket_work c r s) words.1
        (thicket_work-IsNumbered r s words.0 n)
