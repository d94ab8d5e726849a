-- ===== src/App/Sending.antt =====
-- The ways through `send_lxmf` and through a round of `thicket_work`, for any predicate on the
-- device.
use thicket_firmware.Base.{Bool, not, length, if_elim, ◌==◌}
use thicket_firmware.App.Platform.{Bytes}
use thicket_firmware.App.Device.{
  Setting, Device, Reason, Outcome, Round, hash_size, take_outbound, send_lxmf, deliver, blink,
  announce_step, reply_step, autosend_step, thicket_work,
}

module _ (c : Setting) (P : Device c → Type 0) where
  -- A message is refused, or handed to the router.
  pub send_lxmf_elim :
      {s : Device c} (to body : Bytes) (why : Reason) (o : Outcome)
      → P s
      → P (take_outbound c why to body o s).1
      → P (send_lxmf c to body why o s).1
  unfolding send_lxmf
  send_lxmf_elim {s} to body why o p q =
      if_elim (λ (r : Bool × Device c). P r.1) (not s.router) (λ _. p)
        λ _.
          if_elim (λ (r : Bool × Device c). P r.1) (not (length to == hash_size)) (λ _. p) (λ _. q)

  -- A round blinks, or stops after its deliveries, or is whole.
  pub thicket_work_elim :
      (r : Round c) (s : Device c)
      → P (blink c r.blink_ms s)
      → P (deliver c r.delivered s)
      → P (autosend_step c r (reply_step c r (announce_step c r (deliver c r.delivered s))))
      → P (thicket_work c r s)
  unfolding thicket_work
  thicket_work_elim r s p q h =
      if_elim P (not s.stack_up) (λ _. p) λ _. if_elim P r.thrown (λ _. q) (λ _. h)
