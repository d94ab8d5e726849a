-- ===== src/App/Tests.antt =====
-- The theorems on the application at concrete inputs.
use thicket_firmware.Base.{
  ℕ, ◌+◌, ◌^◌, ◌≤◌, ◌<◌, ◌≡◌, ◌↔◌, ◌⊎◌, refl, arith, true, false, none, some, List, [], ◌∷◌, ◌++◌,
  length, replicate, codes, u32, equal,
}
use thicket_firmware.App.Platform.{identity_path, selftest_path, Bytes}
use thicket_firmware.App.Vault.{
  State, plain, identity_code, vault_open, vault_tries_read, vault_tries_write, count_attempt,
  wrong_code, test_code, restore, create, keep_new, vault_seal, bringup_identity,
}
use thicket_firmware.App.Attempts.{Guesses, tests, Guesses-le}
use thicket_firmware.App.Reboots.{boots, power_cycle, identity_survives, locked_out}
use thicket_firmware.App.Diag.{build_diag_body, body_buf}
use thicket_firmware.App.Body.{build_diag_body-fits}
use thicket_firmware.App.Device.{
  Device, Inbound, Round, queued, failed, cut_short, arm_reply, reply_due, thicket_task, announced,
  boot,
}
use thicket_firmware.Base.Picks.{Picks}
use thicket_firmware.Base.{All, codes}
use thicket_firmware.App.Device.{send_lxmf, take_outbound, store_message, auto_reply}
use thicket_firmware.App.Numbered.{IsCalm, IsNumbered, numbers, upto, thicket_task-IsNumbered}
use thicket_firmware.App.Peers.{IsPolite, arrivals, replies}
use thicket_firmware.App.Replies.{reply_due-arm_reply_iff, thicket_task-IsPolite}
use thicket_firmware.App.Announces.{IsSpaced, times, thicket_task-IsSpaced}
use thicket_firmware.App.Silicon.{
  approtect_notes, security_line, variant_text, locked, port_open, glitched,
}
use thicket_firmware.App.Verdict.{security_line-notes}
use thicket_firmware.App.Setup.{
  Boot, System, probe, store_selftest, write_probe, read_probe, opened_as_probe, selftest_passed,
  bringup_lxmf, bringup_identity_step, start_work, setup,
}
use thicket_firmware.App.Bringup.{RoundTrips, store_selftest-none_iff}
use thicket_firmware.App.Blinks.{never_blinks}
use thicket_firmware.App.Samples.{
  platform, platform-IsStore, platform-IsKeeper, blank_disk, sealed_disk, tried_disk, state_on,
  setting, power_on,
}

abbrev sealed_state : State platform
sealed_state = state_on sealed_disk

-- A wrong code, and one that the power cuts.
two-Guesses :
    Guesses platform platform-IsStore sealed_state
      (0 + tests platform platform-IsStore sealed_disk + 1)
      (record (vault_open platform (3 ∷ []) sealed_state).1 {
        disk = count_attempt platform (vault_open platform (3 ∷ []) sealed_state).1.disk;
      })
unfolding vault_open test_code wrong_code count_attempt vault_tries_read vault_tries_write
two-Guesses = Guesses.cut (Guesses.attempt Guesses.here (3 ∷ []) refl) (omega arith)

no_tries : vault_tries_read platform sealed_disk ≡ 0
unfolding vault_tries_read
no_tries = refl

Guesses-le_example :
    let n = 0 + tests platform platform-IsStore sealed_disk + 1 in
    let t = record (vault_open platform (3 ∷ []) sealed_state).1 {
      disk = count_attempt platform (vault_open platform (3 ∷ []) sealed_state).1.disk;
    } in
    (n ≤ 10) × (n ≡ 10 → (code : Bytes) → vault_open platform code t ≡ (false, t))
Guesses-le_example = Guesses-le platform platform-IsStore no_tries two-Guesses

first_boot_done :
    (bringup_identity platform (identity_code (1 ∷ [])) (some 7) (state_on blank_disk)).0 ≡ true
unfolding bringup_identity create keep_new vault_seal
first_boot_done = refl

no_tries_yet : vault_tries_read platform blank_disk < 10
unfolding vault_tries_read
no_tries_yet = omega arith

identity_survives_example :
    let first =
      (bringup_identity platform (identity_code (1 ∷ [])) (some 7) (state_on blank_disk)).1 in
    let later = boots platform (identity_code (1 ∷ [])) (none ∷ some 3 ∷ []) first in
    let again =
      bringup_identity platform (identity_code (1 ∷ [])) none (power_cycle platform later) in
    (again.0 ≡ true) × (again.1.identity ≡ some 7)
identity_survives_example =
    identity_survives platform platform-IsStore platform-IsKeeper (identity_code (1 ∷ [])) 7
      (none ∷ some 3 ∷ []) none (state_on blank_disk) no_tries_yet refl first_boot_done

nine_tries : vault_tries_read platform tried_disk ≡ 9
unfolding vault_tries_read
nine_tries = refl

wrong_guess :
    platform.password_open identity_path (3 ∷ []) (count_attempt platform tried_disk) ≡ none
unfolding count_attempt vault_tries_write
wrong_guess = refl

sealed_anew :
    let wiped = (bringup_identity platform (identity_code (3 ∷ [])) none (state_on tried_disk)).1 in
    (bringup_identity platform (identity_code (1 ∷ [])) (some 8) (power_cycle platform wiped)).0
    ≡ true
unfolding bringup_identity restore create keep_new vault_seal vault_open test_code wrong_code
    count_attempt vault_tries_read vault_tries_write
sealed_anew = refl

locked_out_example :
    let wiped = (bringup_identity platform (identity_code (3 ∷ [])) none (state_on tried_disk)).1 in
    let fresh =
      bringup_identity platform (identity_code (1 ∷ [])) (some 8) (power_cycle platform wiped) in
    bringup_identity platform (identity_code (1 ∷ [])) none (power_cycle platform fresh.1)
    ≡ (false, power_cycle platform fresh.1)
locked_out_example =
    locked_out platform platform-IsStore platform-IsKeeper (3 ∷ []) (1 ∷ []) 8 none none
      (state_on tried_disk) refl nine_tries wrong_guess sealed_anew

build_diag_body-fits_example :
    let body =
      build_diag_body ℕ setting.lroundf setting.times_ten 7 812000 setting.identity_hex body_buf
        true 0 82 in
    (body.0 ≤ 48) × (length body.1 ≡ body.0)
build_diag_body-fits_example =
    build_diag_body-fits ℕ setting.lroundf setting.times_ten 7 812000 setting.identity_hex true 0 82
      (omega arith) (omega arith)

abbrev message : Inbound setting
message = record { source_hash = replicate 16 4; saved = true; at_ms = 4294967000; signal = none }

reply_due-arm_reply_iff_example :
    (reply_due setting (u32 (message.at_ms + 1500)) (arm_reply setting message power_on).reply
      ≡ true)
    ↔ ((1500 ≤ 1500) × (1500 < 2 ^ 31 + 1500))
reply_due-arm_reply_iff_example =
    reply_due-arm_reply_iff setting message power_on 1500 (omega arith) (omega arith)

-- A device whose bring-up is done, and two rounds: the message comes and is answered, and 1801
-- seconds after the boot the device announces itself.
abbrev working : Device setting
working = record power_on { stack_up = true; router = true; log = announced boot 0 ∷ [] }

abbrev quiet_round : Round setting
quiet_round = record {
  blink_ms = 0;
  delivered = [];
  thrown = false;
  announce_check = 1000;
  announce_time = 1000;
  reply_check = 1300;
  reply_ms = 1300;
  reply_outcome = queued true;
  autosend_check = 0;
  autosend_time = 0;
  autosend_signal = none;
  autosend_ms = 0;
  autosend_outcome = failed;
}

abbrev rounds : List (Round setting)
rounds =
    record quiet_round { delivered = message ∷ []; reply_check = 4294967001 }
    ∷ record quiet_round { announce_check = 1801000; announce_time = 1801001 }
    ∷ []

IsNumbered-so_far : IsNumbered setting working
unfolding numbers upto
IsNumbered-so_far = record { counter = refl; in_order = refl }

rounds-IsCalm : All (IsCalm setting) rounds
rounds-IsCalm = (
  record { reply_ms = omega arith; autosend_ms = omega arith; reply = tt; autosend = tt },
  (record { reply_ms = omega arith; autosend_ms = omega arith; reply = tt; autosend = tt }, tt),
)

thicket_task-IsNumbered_example : IsNumbered setting (thicket_task setting rounds working)
thicket_task-IsNumbered_example =
    thicket_task-IsNumbered setting rounds working rounds-IsCalm IsNumbered-so_far

-- A message that is cut short has left and is not counted, so that the next one has its number.
abbrev cut_off : Device setting
cut_off =
    (send_lxmf setting (replicate 16 4) (codes "#0") auto_reply (cut_short (some true)) working).1

left_uncounted : (cut_off.send_counter ≡ working.send_counter) × (length cut_off.log ≡ 2)
unfolding send_lxmf take_outbound store_message
left_uncounted = (refl, refl)

IsPolite-so_far : IsPolite setting [] working
unfolding replies
IsPolite-so_far = record { past = (tt, tt); next = λ h. absurd (cc); order = Picks.done }

thicket_task-IsPolite_example :
    IsPolite setting ([] ++ arrivals setting rounds) (thicket_task setting rounds working)
thicket_task-IsPolite_example = thicket_task-IsPolite setting rounds IsPolite-so_far

IsSpaced-so_far : IsSpaced setting working
unfolding times
IsSpaced-so_far = record { spaced = tt; last = refl }

thicket_task-IsSpaced_example : IsSpaced setting (thicket_task setting rounds working)
thicket_task-IsSpaced_example =
    thicket_task-IsSpaced setting rounds working (omega arith) IsSpaced-so_far

store_selftest-none_iff_example :
    (((store_selftest platform 7 blank_disk).0 ≡ none)
      ↔ RoundTrips platform platform-IsStore 7 blank_disk)
    × (platform.file_exists selftest_path (store_selftest platform 7 blank_disk).1 ≡ false)
store_selftest-none_iff_example = store_selftest-none_iff platform platform-IsStore 7 blank_disk

-- An AAF0 whose UICR is erased.
security_line-notes_example :
    let variant : ℕ = 0x41414630 in
    let approt : ℕ = 0xFFFFFFFF in
    let said = λ (word : Bytes).
      security_line variant approt
      ≡ codes "THICKET-SEC v1 variant="
        ++ (variant_text variant ++ (codes " approtect=" ++ word)) in
    ((approtect_notes variant approt ≡ locked ∷ []) × said (codes "protected"))
    ⊎ (((approtect_notes variant approt ≡ port_open ∷ [])
          ⊎ (approtect_notes variant approt ≡ glitched ∷ [])
          ⊎ (approtect_notes variant approt ≡ []))
        × said (codes "OPEN"))
security_line-notes_example = security_line-notes 0x41414630 0xFFFFFFFF

abbrev good_boot : Boot platform
good_boot = record {
  storage = true;
  generated = some 7;
  radio = true;
  reticulum = true;
  router = true;
  codec = true;
  announce_time = 5;
  autosend_hex = none;
  autosend_time = 0;
  task = true;
}

abbrev no_hex : Bytes → Bytes
no_hex hex = []

abbrev at_reset : System setting platform no_hex
at_reset = record { device = power_on; state = state_on blank_disk; running = false }

work_runs : (setup setting platform no_hex plain good_boot at_reset).running ≡ true
unfolding setup bringup_identity_step bringup_identity create keep_new bringup_lxmf selftest_passed
    store_selftest write_probe read_probe opened_as_probe probe start_work equal
work_runs = refl

never_blinks_example :
    let s = (setup setting platform no_hex plain good_boot at_reset).device in
    ((thicket_task setting rounds s).stack_up ≡ true)
    × ((thicket_task setting rounds s).blink_on ≡ s.blink_on)
never_blinks_example =
    never_blinks setting platform no_hex plain good_boot at_reset rounds refl work_runs
