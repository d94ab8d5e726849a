-- ===== src/App/Blinks.antt =====
-- The lamp of a failed bring-up: `thicket_work` blinks it where the stack is not up.
use thicket_firmware.Base.{
  some, none, ◌≡◌, refl, ◌∙◌, Bool, true, false, not, List, [], ◌∷◌, if_elim, arith,
}
use thicket_firmware.App.Platform.{Platform, Bytes}
use thicket_firmware.App.Vault.{Build}
use thicket_firmware.App.Device.{
  Setting, Device, Reason, Outcome, queued, failed, cut_short, Inbound, Round, auto_reply,
  timed_send, store_message, take_outbound, send_lxmf, announce, arm_reply, on_delivery, deliver,
  announce_step, body_of, reply_due, reply_step, autosend_due, autosend_step, thicket_work,
  thicket_task, signal_valid?, rssi_of, snr_of,
}
use thicket_firmware.App.Sending.{send_lxmf_elim}
use thicket_firmware.App.Setup.{Boot, System, setup}
use thicket_firmware.App.Bringup.{setup-AllUp}

-- The stack is up, and the lamp was not switched since it was `on`.
pub record IsSteady (c : Setting) (on : Bool) (s : Device c) : Type 0 where
  pub up : s.stack_up ≡ true
  pub lamp : s.blink_on ≡ on

module _ (c : Setting) {on : Bool} where
  same-IsSteady :
      {s t : Device c}
      → t.stack_up ≡ s.stack_up
      → t.blink_on ≡ s.blink_on
      → IsSteady c on s
      → IsSteady c on t
  same-IsSteady e f p = record { up = e ∙ p.up; lamp = f ∙ p.lamp }

  on_delivery-IsSteady :
      (m : Inbound c) {s : Device c} → IsSteady c on s → IsSteady c on (on_delivery c m s)
  unfolding on_delivery arm_reply store_message
  on_delivery-IsSteady m p = same-IsSteady (ground arith) (ground arith) p

  deliver-IsSteady :
      (ms : List (Inbound c)) {s : Device c} → IsSteady c on s → IsSteady c on (deliver c ms s)
  unfolding deliver
  deliver-IsSteady [] p = p
  deliver-IsSteady (m ∷ ms) p = deliver-IsSteady ms (on_delivery-IsSteady m p)

  announce_step-IsSteady :
      (r : Round c) {s : Device c} → IsSteady c on s → IsSteady c on (announce_step c r s)
  unfolding announce_step announce
  announce_step-IsSteady r p = same-IsSteady (ground arith) (ground arith) p

  send_lxmf-IsSteady :
      (to body : Bytes) (why : Reason) (o : Outcome) {s : Device c}
      → IsSteady c on s
      → IsSteady c on (send_lxmf c to body why o s).1
  unfolding take_outbound store_message
  send_lxmf-IsSteady to body why failed p = send_lxmf_elim c (IsSteady c on) to body why failed p p
  send_lxmf-IsSteady to body why (cut_short none) p =
      send_lxmf_elim c (IsSteady c on) to body why (cut_short none) p
        (same-IsSteady (ground arith) (ground arith) p)
  send_lxmf-IsSteady to body why (cut_short (some saved)) p =
      send_lxmf_elim c (IsSteady c on) to body why (cut_short (some saved)) p
        (same-IsSteady (ground arith) (ground arith) p)
  send_lxmf-IsSteady to body why (queued saved) p =
      send_lxmf_elim c (IsSteady c on) to body why (queued saved) p
        (same-IsSteady (ground arith) (ground arith) p)

  reply_step-IsSteady :
      (r : Round c) {s : Device c} → IsSteady c on s → IsSteady c on (reply_step c r s)
  unfolding reply_step
  reply_step-IsSteady r {s} p =
      let q = s.reply in
      if_elim (IsSteady c on) (reply_due c r.reply_check q)
        (λ _.
          send_lxmf-IsSteady q.to (body_of c r.reply_ms q.signal_valid q.rssi q.snr s) auto_reply
            r.reply_outcome (same-IsSteady refl refl p))
        (λ _. p)

  autosend_step-IsSteady :
      (r : Round c) {s : Device c} → IsSteady c on s → IsSteady c on (autosend_step c r s)
  unfolding autosend_step
  autosend_step-IsSteady r {s} p =
      let g = r.autosend_signal in
      if_elim (IsSteady c on) (autosend_due c c.autosend_interval r.autosend_check s)
        (λ _.
          send_lxmf-IsSteady s.autosend_dest
            (body_of c r.autosend_ms (signal_valid? c g) (rssi_of c g) (snr_of c g) s) timed_send
            r.autosend_outcome (same-IsSteady refl refl p))
        (λ _. p)

  thicket_work-IsSteady :
      (r : Round c) {s : Device c} → IsSteady c on s → IsSteady c on (thicket_work c r s)
  unfolding thicket_work
  thicket_work-IsSteady r {s} p =
      let taken = deliver-IsSteady r.delivered p in
      if_elim (IsSteady c on) (not s.stack_up) (λ down. absurd (cc (p.up, down)))
        λ _.
          if_elim (IsSteady c on) r.thrown (λ _. taken)
            λ _. autosend_step-IsSteady r (reply_step-IsSteady r (announce_step-IsSteady r taken))

  thicket_task-IsSteady :
      (rs : List (Round c)) {s : Device c} → IsSteady c on s → IsSteady c on (thicket_task c rs s)
  unfolding thicket_task
  thicket_task-IsSteady [] p = p
  thicket_task-IsSteady (r ∷ rs) p = thicket_task-IsSteady rs (thicket_work-IsSteady r p)

-- Where the work task runs after `setup`, the stack is up and stays up, and no round of the task
-- ever blinks the lamp: the branch for a failed bring-up is not reached, since the task is made
-- only where the bring-up has succeeded.
pub never_blinks :
    (c : Setting) (pf : Platform) (assign_hex : Bytes → Bytes) (build : Build) (b : Boot pf)
    (y : System c pf assign_hex) (rs : List (Round c))
    → y.running ≡ false
    → (setup c pf assign_hex build b y).running ≡ true
    → let s = (setup c pf assign_hex build b y).device in
      ((thicket_task c rs s).stack_up ≡ true) × ((thicket_task c rs s).blink_on ≡ s.blink_on)
never_blinks c pf assign_hex build b y rs down h =
    let steady =
      thicket_task-IsSteady c rs
        (record { up = (setup-AllUp c pf assign_hex build b y down h).1; lamp = refl }) in
    (steady.up, steady.lamp)
