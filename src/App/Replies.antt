-- ===== src/App/Replies.antt =====
-- The replies: when one is due, whom it goes to, and how many there are.
use thicket_firmware.Base.{
  none, some, sym, append-nil, append_assoc, ℕ, ◌+◌, ◌^◌, ◌≤◌, ◌<◌, ◌≡◌, ◌↔◌, refl, ap, arith, Bool,
  true, false, not, List, [], ◌∷◌, ◌++◌, length, if◌then◌else◌, Bool-cases, if_elim, inl, inr, u32,
  All-append, equal, equal_refl, ◌==◌,
}
use thicket_firmware.Base.Picks.{Picks, Picks-front, Picks-more, Picks-snoc}
use thicket_firmware.App.Platform.{Bytes}
use thicket_firmware.App.Device.{
  Setting, Device, Action, Reason, announced, outbound, pinned, Outcome, queued, failed, cut_short,
  Inbound, Round, ReplyRequest, timer, auto_reply, timed_send, hash_size, reply_delay_ms, logged,
  store_message, take_outbound, send_lxmf, announce, arm_reply, on_delivery, deliver, blink,
  announce_step, body_of, reply_due, reply_step, autosend_due, autosend_step, thicket_work,
  thicket_task, signal_valid?, rssi_of, snr_of,
}
use thicket_firmware.App.Sending.{send_lxmf_elim, thicket_work_elim}
use thicket_firmware.App.Peers.{
  IsPeer, answered, peers, arrivals, Polite, reply_to, replies, replies-snoc, pending, IsPolite,
}

-- A reply that was armed at `at`, on a clock of 32 bits that wraps, is due after `elapsed`
-- milliseconds, fewer than 2^32, exactly if these are 1500 or more and fewer than 2^31 and 1500.
pub reply_due-arm_reply_iff :
    (c : Setting) (m : Inbound c) (s : Device c) (elapsed : ℕ)
    → m.at_ms < 2 ^ 32
    → elapsed < 2 ^ 32
    → (reply_due c (u32 (m.at_ms + elapsed)) (arm_reply c m s).reply ≡ true)
      ↔ ((reply_delay_ms ≤ elapsed) × (elapsed < 2 ^ 31 + reply_delay_ms))
unfolding reply_due arm_reply
reply_due-arm_reply_iff c m s elapsed h k = ground arith

due-armed : (c : Setting) (now : ℕ) (q : ReplyRequest c) → reply_due c now q ≡ true → q.armed ≡ true
unfolding reply_due
due-armed c now q h = ground arith

module _ (c : Setting) {k : List Bytes} where
  -- What changes neither log nor reply.
  Same-IsPolite :
      {s t : Device c} → t.log ≡ s.log → t.reply ≡ s.reply → IsPolite c k s → IsPolite c k t
  Same-IsPolite e f p = record { past = rw e p.past; next = rw f p.next; order = rw (e, f) p.order }

  -- A further action that is no reply.
  logged-IsPolite :
      {s : Device c} (a : Action)
      → Polite c a
      → reply_to c a ≡ []
      → IsPolite c k s
      → IsPolite c k (logged c a s)
  logged-IsPolite {s} a polite mute p = record {
    past = All-append (Polite c) s.log (a ∷ []) p.past (polite, tt);
    next = p.next;
    order = rw (replies-snoc c s.log a, mute, append-nil (replies c s.log)) p.order;
  }

  store_message-IsPolite :
      {s : Device c} (saved inbound : Bool)
      → IsPolite c k s
      → IsPolite c k (store_message c saved inbound s)
  unfolding store_message
  store_message-IsPolite saved inbound p = Same-IsPolite (ground arith) (ground arith) p

  blink-IsPolite : {s : Device c} (now : ℕ) → IsPolite c k s → IsPolite c k (blink c now s)
  unfolding blink
  blink-IsPolite now p = Same-IsPolite (ground arith) (ground arith) p

  announce-IsPolite :
      {s : Device c} (why : Reason) (now : ℕ) → IsPolite c k s → IsPolite c k (announce c why now s)
  unfolding announce replies
  announce-IsPolite {s} why now p =
      if_elim (IsPolite c k) (not s.router) (λ _. p)
        λ _.
          let q = logged-IsPolite (announced why now) tt refl p in
          record { past = q.past; next = q.next; order = q.order }

  announce_step-IsPolite :
      {s : Device c} (r : Round c) → IsPolite c k s → IsPolite c k (announce_step c r s)
  unfolding announce_step
  announce_step-IsPolite {s} r p =
      if_elim (IsPolite c k) _ (λ _. announce-IsPolite timer r.announce_time p) (λ _. p)

  -- A message that the router has taken, and that has its place among the sources if it is a reply.
  sent-IsPolite :
      {s : Device c} (to body : Bytes) (why : Reason)
      → Polite c (outbound why to body)
      → Picks ((replies c s.log ++ reply_to c (outbound why to body)) ++ pending c s.reply) k
      → IsPolite c k s
      → IsPolite c k (logged c (outbound why to body) s)
  sent-IsPolite {s} to body why polite room p = record {
    past = All-append (Polite c) s.log (outbound why to body ∷ []) p.past (polite, tt);
    next = p.next;
    order = rw (replies-snoc c s.log (outbound why to body)) room;
  }

  take_outbound-IsPolite :
      {s : Device c} (to body : Bytes) (why : Reason) (o : Outcome)
      → Polite c (outbound why to body)
      → Picks ((replies c s.log ++ reply_to c (outbound why to body)) ++ pending c s.reply) k
      → IsPolite c k s
      → IsPolite c k (take_outbound c why to body o s).1
  unfolding take_outbound
  take_outbound-IsPolite {s} to body why failed polite room p = p
  take_outbound-IsPolite {s} to body why (cut_short none) polite room p =
      sent-IsPolite to body why polite room p
  take_outbound-IsPolite {s} to body why (cut_short (some saved)) polite room p =
      store_message-IsPolite saved false (sent-IsPolite to body why polite room p)
  take_outbound-IsPolite {s} to body why (queued saved) polite room p =
      let kept = store_message-IsPolite saved false (sent-IsPolite to body why polite room p) in
      record { past = kept.past; next = kept.next; order = kept.order }

  send_lxmf-IsPolite :
      {s : Device c} (to body : Bytes) (why : Reason) (o : Outcome)
      → Polite c (outbound why to body)
      → Picks ((replies c s.log ++ reply_to c (outbound why to body)) ++ pending c s.reply) k
      → IsPolite c k s
      → IsPolite c k (send_lxmf c to body why o s).1
  send_lxmf-IsPolite to body why o polite room p =
      send_lxmf_elim c (IsPolite c k) to body why o p
        (take_outbound-IsPolite to body why o polite room p)

  reply_step-IsPolite :
      {s : Device c} (r : Round c) → IsPolite c k s → IsPolite c k (reply_step c r s)
  unfolding reply_step replies
  reply_step-IsPolite {s} r p =
      let q = s.reply in
      if_elim (IsPolite c k) (reply_due c r.reply_check q)
        (λ due.
          let armed = due-armed c r.reply_check q due in
          let place : Picks (replies c s.log ++ q.to ∷ []) k = rw armed at p.order in
          send_lxmf-IsPolite q.to (body_of c r.reply_ms q.signal_valid q.rssi q.snr s) auto_reply
            r.reply_outcome (p.next armed) (rw (append-nil (replies c s.log ++ q.to ∷ [])) place)
            (record {
              past = p.past;
              next = λ h. absurd (cc);
              order =
                  rw (append-nil (replies c s.log))
                    (Picks-front (replies c s.log) (pending c q) p.order);
            }))
        (λ _. p)

  autosend_step-IsPolite :
      {s : Device c} (r : Round c) → IsPolite c k s → IsPolite c k (autosend_step c r s)
  unfolding autosend_step replies
  autosend_step-IsPolite {s} r p =
      let g = r.autosend_signal in
      if_elim (IsPolite c k) (autosend_due c c.autosend_interval r.autosend_check s)
        (λ _.
          send_lxmf-IsPolite s.autosend_dest
            (body_of c r.autosend_ms (signal_valid? c g) (rssi_of c g) (snr_of c g) s) timed_send
            r.autosend_outcome tt (rw (append-nil (replies c s.log)) p.order)
            (record { past = p.past; next = p.next; order = p.order }))
        (λ _. p)

module _ (c : Setting) where
  more-IsPolite :
      {k : List Bytes} {s : Device c} (more : List Bytes)
      → IsPolite c k s
      → IsPolite c (k ++ more) s
  more-IsPolite more p = record { past = p.past; next = p.next; order = Picks-more more p.order }

  IsPeer-of :
      (m : Inbound c)
      → (length m.source_hash == hash_size) ≡ true
      → equal m.source_hash c.delivery_hash ≡ false
      → IsPeer c m.source_hash
  IsPeer-of m size other = (
    ground arith,
    λ e. cc (other, ap (λ t. equal t c.delivery_hash) e, equal_refl c.delivery_hash),
  )

  -- A message that is answered may have its reply behind those so far; a pending one is replaced.
  arm_reply-IsPolite :
      {k : List Bytes} {s : Device c} (m : Inbound c)
      → IsPeer c m.source_hash
      → IsPolite c k s
      → IsPolite c (k ++ m.source_hash ∷ []) (arm_reply c m s)
  unfolding arm_reply
  arm_reply-IsPolite {k} {s} m peer p =
      let pin = logged-IsPolite c (pinned m.source_hash) tt refl p in
      let t = if c.pinning then logged c (pinned m.source_hash) s else s in
      let q : IsPolite c k t =
        if_elim (IsPolite c k) c.pinning {x = logged c (pinned m.source_hash) s} {y = s} (λ _. pin)
          (λ _. p) in
      record {
        past = q.past;
        next = λ _. peer;
        order =
            Picks-snoc m.source_hash (Picks-front (replies c t.log) (pending c t.reply) q.order);
      }

  on_delivery-IsPolite :
      {k : List Bytes} {s : Device c} (m : Inbound c)
      → IsPolite c k s
      → IsPolite c (k ++ peers c (m ∷ [])) (on_delivery c m s)
  unfolding on_delivery peers
  on_delivery-IsPolite {k} {s} m p =
      let kept = store_message-IsPolite c m.saved true p in
      elim (Bool-cases (length m.source_hash == hash_size)) [
        | inr bad ↦ rw bad (more-IsPolite [] kept)
        | inl size ↦ elim (Bool-cases (equal m.source_hash c.delivery_hash)) [
          | inl own ↦ rw (size, own) (more-IsPolite [] kept)
          | inr other ↦ rw (size, other) (arm_reply-IsPolite m (IsPeer-of m size other) kept)
        ]
      ]

  peers-cons :
      (m : Inbound c) (ms : List (Inbound c)) → peers c (m ∷ ms) ≡ peers c (m ∷ []) ++ peers c ms
  unfolding peers
  peers-cons m ms = elim (Bool-cases (answered c m)) [
    | inl kept ↦ rw kept refl
    | inr gone ↦ rw gone refl
  ]

  deliver-IsPolite :
      (ms : List (Inbound c)) {k : List Bytes} {s : Device c}
      → IsPolite c k s
      → IsPolite c (k ++ peers c ms) (deliver c ms s)
  unfolding deliver peers
  deliver-IsPolite [] p = more-IsPolite [] p
  deliver-IsPolite (m ∷ ms) {k} p =
      rw (peers-cons m ms, sym (append_assoc k (peers c (m ∷ [])) (peers c ms)))
        (deliver-IsPolite ms (on_delivery-IsPolite m p))

  thicket_work-IsPolite :
      {k : List Bytes} (r : Round c) {s : Device c}
      → IsPolite c k s
      → IsPolite c (k ++ peers c r.delivered) (thicket_work c r s)
  thicket_work-IsPolite r {s} p =
      let taken = deliver-IsPolite r.delivered p in
      thicket_work_elim c (IsPolite c _) r s
        (more-IsPolite (peers c r.delivered) (blink-IsPolite c r.blink_ms p)) taken
        (autosend_step-IsPolite c r (reply_step-IsPolite c r (announce_step-IsPolite c r taken)))

  -- Over any run of the work task: every automatic reply goes to a hash of 16 bytes that is not
  -- the device's own, and so will the one that is pending. The destinations of the replies, with
  -- that of the pending one last, are those at the start and the sources of the messages that
  -- have arrived since with such a source, in the order of their arrival, with some left out: a
  -- reply answers a message that has arrived, and each message is answered at most once.
  pub thicket_task-IsPolite :
      (rs : List (Round c)) {sources : List Bytes} {s : Device c}
      → IsPolite c sources s
      → IsPolite c (sources ++ arrivals c rs) (thicket_task c rs s)
  unfolding thicket_task arrivals
  thicket_task-IsPolite [] p = more-IsPolite [] p
  thicket_task-IsPolite (r ∷ rs) {sources} p =
      rw (sym (append_assoc sources (peers c r.delivered) (arrivals c rs)))
        (thicket_task-IsPolite rs (thicket_work-IsPolite r p))
