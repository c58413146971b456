-- ===== src/Bench/Outcome.antt =====
-- What each arm of the benchmark computes in a pass over a pool.
use lightway_cffi.Base.{
  ℕ, ◌+◌, ◌≤◌, ◌<◌, ◌≡◌, ◌&&◌, inl, inr, refl, sym, ap, ◌∙◌, subst, Bool, true, false, List, arith,
  length, slice,
}
use lightway_cffi.Session.{wire_overhead, packets_received}
use lightway_cffi.Bench.Pool.{Src, Sched}
use lightway_cffi.Bench.Schedule.{schedule}
use lightway_cffi.Bench.Passes.{
  run_pass, null_body, copy_body, cc_enc_body, rc_dec_body, ring_dec_body, cc_dec_body, rc_enc_body,
  ring_enc_body,
}
use lightway_cffi.Bench.Arms.{Providers, Ctx, Pass, start, fold, slot_of, fold_of}
use lightway_cffi.Bench.Passes.{
  null_pass, copy_pass, rc_dec_pass, ring_dec_pass, cc_dec_pass, session_dec_pass, rc_enc_pass,
  ring_enc_pass, cc_enc_pass, session_enc_pass,
}
use lightway_cffi.Bench.Sent.{Sends, length-IsPacket}
use lightway_cffi.Bench.Filled.{packet_at}
use lightway_cffi.Bench.Visits.{each_all, schedule_bounds, schedule_cold}
use lightway_cffi.Bench.Recovers.{checksum, length-payload_at}
use lightway_cffi.Bench.Agree.{arm_rc-Complete, arm_ring-Complete, arm_chacha-Complete}
use lightway_cffi.Bench.Commits.{Receives, session_dec-Passed, session_dec_pass-Complete}
use lightway_cffi.Bench.Folds.{sealed_sum, each-Folded}
use lightway_cffi.Bench.Encrypts.{
  rc_enc-Folded, ring_enc-Folded, session_enc-Folded, session_enc-Sent,
}
use lightway_cffi.Bench.Ready.{IsReady, null_pass-Ready, copy_pass-Ready, opens-Ready, seals-Ready}
use lightway_cffi.Bench.Runner.{
  Family, null_family, copy_family, dec, enc, enc_chacha, Arm, null_arm, copy_payload,
  rc_aesgcm256_dec, ring_aesgcm256_dec, rc_chacha_dec, session_decrypt, rc_aesgcm256_enc,
  ring_aesgcm256_enc, rc_chacha_enc, session_encrypt,
}
use lightway_cffi.Bench.Complete.{copied_sum, family_of, is_session, Right, expected, IsComplete}

module _ (p : Providers) (x : Ctx p) (src : Src)
    (r : Right p x.ring_key x.rc_key x.cc_key x.sid src) (seed : ℕ) (dst : List ℕ)
    (ready : IsReady p x.ring_key src (start p x dst)) where
  abbrev Outcome : Family → Sched → Pass p → Type 0
  Outcome f sch t = IsComplete p x.ring_key x.cc_key x.sid src f sch t

  module _ (hot : Bool) where
    abbrev sch : Sched
    sch = schedule src hot seed

    visits : (i : ℕ) → i < sch.n → slot_of p sch i < src.slots
    unfolding schedule
    visits i h = (schedule_bounds src hot seed i r.payloads h).0

    inside : (i : ℕ) → i < sch.n → fold_of p sch i + 8 ≤ src.len
    unfolding schedule
    inside i h = (schedule_bounds src hot seed i r.payloads h).1

    null-Outcome : Outcome null_family sch (null_pass p x src dst sch)
    null-Outcome = record {
      done = null_done;
      acc = inl refl;
      ready = null_pass-Ready p x src r.pool r.few sch visits dst ready;
    }
      where
        null_done : (null_pass p x src dst sch).done ≡ sch.n
        null_done =
            unfold null_pass null_body in
            each_all p (null_body p x src sch) sch.n (λ i t. t.done ≡ i)
              (λ i t h e. omega (arith, e)) (start p x dst) refl

    copy-Outcome : Outcome copy_family sch (copy_pass p x src dst sch)
    copy-Outcome = record {
      done = copied.1;
      acc = inr (unfold expected in copied.0);
      ready = copy_pass-Ready p x src r.pool r.few sch visits r.laws.ring_laws dst ready;
    }
      where
        copied :
            ((copy_pass p x src dst sch).acc ≡ copied_sum src sch sch.n)
            × ((copy_pass p x src dst sch).done ≡ sch.n)
        copied =
            unfold copy_pass copy_body copied_sum in
            each_all p (copy_body p x src sch) sch.n
              (λ i t. (t.acc ≡ copied_sum src sch i) × (t.done ≡ i))
              (λ i t h k. (
                ap
                    (λ acc.
                      fold acc
                        (slice (packet_at src.len src.stride src.wire (slot_of p sch i))
                          wire_overhead (wire_overhead + src.len))
                        (fold_of p sch i))
                    k.0,
                omega (arith, k.1),
              ))
              (start p x dst) (refl, refl)

    lengths :
        (j : ℕ)
        → j < src.slots
        → length (packet_at src.len src.stride src.wire j) ≡ wire_overhead + src.len
    lengths j h =
        length-IsPacket p.ring r.laws.ring_laws x.ring_key x.sid _ _ _ (r.pool.holds j h)
        ∙ omega (arith, length-payload_at p x src sch r.pool r.few visits j h)

    lengths_cc :
        (j : ℕ)
        → j < src.slots
        → length (packet_at src.len src.stride src.wire_cc j) ≡ wire_overhead + src.len
    lengths_cc j h =
        length-IsPacket p.cc r.laws.cc_laws x.cc_key x.sid _ _ _ (r.pool.holds_cc j h)
        ∙ omega (arith, length-payload_at p x src sch r.pool r.few visits j h)

    -- A pass that ends with the accumulator of its family and leaves things ready is complete.
    module _ (t : Pass p) where
      recovered-IsComplete :
          (t.acc ≡ checksum src sch sch.n) × (t.done ≡ sch.n)
          → IsReady p x.ring_key src t
          → Outcome dec sch t
      unfolding expected
      recovered-IsComplete got after = record { done = got.1; acc = inr got.0; ready = after }

      sealed-IsComplete :
          (t.acc ≡ (sealed_sum p.ring x.ring_key x.sid src sch sch.n).0) × (t.done ≡ sch.n)
          → IsReady p x.ring_key src t
          → Outcome enc sch t
      unfolding expected
      sealed-IsComplete got after = record { done = got.1; acc = inr got.0; ready = after }

      sealed_cc-IsComplete :
          (t.acc ≡ (sealed_sum p.cc x.cc_key x.sid src sch sch.n).0) × (t.done ≡ sch.n)
          → IsReady p x.ring_key src t
          → Outcome enc_chacha sch t
      unfolding expected
      sealed_cc-IsComplete got after = record { done = got.1; acc = inr got.0; ready = after }

    rc_dec-Outcome : Outcome dec sch (rc_dec_pass p x src dst sch)
    rc_dec-Outcome =
        recovered-IsComplete (rc_dec_pass p x src dst sch)
          (arm_rc-Complete p r.laws x src r.pool r.same r.few dst sch visits)
          (unfold rc_dec_pass rc_dec_body in
            opens-Ready p x src r.pool r.few sch visits p.rc r.laws.rc_laws x.rc_key
              (rc_dec_body p x src sch) src.wire lengths (λ i t. refl) (start p x dst) ready)

    ring_dec-Outcome : Outcome dec sch (ring_dec_pass p x src dst sch)
    ring_dec-Outcome =
        recovered-IsComplete (ring_dec_pass p x src dst sch)
          (arm_ring-Complete p r.laws x src r.pool r.same r.few dst sch visits)
          (unfold ring_dec_pass ring_dec_body in
            opens-Ready p x src r.pool r.few sch visits p.ring r.laws.ring_laws x.ring_key
              (ring_dec_body p x src sch) src.wire lengths (λ i t. refl) (start p x dst) ready)

    chacha_dec-Outcome : Outcome dec sch (cc_dec_pass p x src dst sch)
    chacha_dec-Outcome =
        recovered-IsComplete (cc_dec_pass p x src dst sch)
          (arm_chacha-Complete p r.laws x src r.pool r.same r.few dst sch visits)
          (unfold cc_dec_pass cc_dec_body in
            opens-Ready p x src r.pool r.few sch visits p.cc r.laws.cc_laws x.cc_key
              (cc_dec_body p x src sch) src.wire_cc lengths_cc (λ i t. refl) (start p x dst) ready)

    rc_enc-Outcome : Outcome enc sch (rc_enc_pass p x src dst sch)
    rc_enc-Outcome =
        sealed-IsComplete (rc_enc_pass p x src dst sch)
          (rc_enc-Folded p r.laws.ring_laws r.can x src r.pool r.same r.few dst ready.size
            r.sid_size sch visits inside)
          (unfold rc_enc_pass rc_enc_body in
            seals-Ready p x src r.pool r.few sch visits p.rc r.laws.rc_laws x.rc_key
              (rc_enc_body p x src sch) (λ i t. refl) (start p x dst) ready)

    ring_enc-Outcome : Outcome enc sch (ring_enc_pass p x src dst sch)
    ring_enc-Outcome =
        sealed-IsComplete (ring_enc_pass p x src dst sch)
          (ring_enc-Folded p r.laws.ring_laws r.can x src r.pool r.same r.few dst ready.size
            r.sid_size sch visits inside)
          (unfold ring_enc_pass ring_enc_body in
            seals-Ready p x src r.pool r.few sch visits p.ring r.laws.ring_laws x.ring_key
              (ring_enc_body p x src sch) (λ i t. refl) (start p x dst) ready)

    chacha_enc-Outcome : Outcome enc_chacha sch (cc_enc_pass p x src dst sch)
    chacha_enc-Outcome =
        sealed_cc-IsComplete (cc_enc_pass p x src dst sch)
          (unfold cc_enc_pass cc_enc_body in
            each-Folded p x src r.pool r.few sch visits p.cc r.cc_can x.cc_key
              (cc_enc_body p x src sch) (start p x dst) (λ i t. refl) refl refl)
          (unfold cc_enc_pass cc_enc_body in
            seals-Ready p x src r.pool r.few sch visits p.cc r.laws.cc_laws x.cc_key
              (cc_enc_body p x src sch) (λ i t. refl) (start p x dst) ready)

    session_enc-Outcome : Outcome enc sch (session_enc_pass p x src dst sch)
    session_enc-Outcome =
        sealed-IsComplete (session_enc_pass p x src dst sch)
          (session_enc-Folded p r.laws.ring_laws r.can x src r.pool r.same r.few dst ready.size
            r.sid_size sch visits inside ready.tx)
          (let sent =
              session_enc-Sent p r.laws.ring_laws r.can x src r.pool r.same r.few dst ready.size
                r.sid_size sch visits inside ready.tx in
            record { size = omega (arith, sent.size, ready.size); tx = sent.tx })

  module _ (fresh : Receives p.ring x.ring_key 0 x.rx) where
    in_order : (i : ℕ) → i < (sch false).n → slot_of p (sch false) i ≡ i
    unfolding schedule
    in_order i h = schedule_cold src seed i r.few h

    all_slots : (sch false).n ≡ src.slots
    unfolding schedule
    all_slots = refl

    session_dec-Outcome : Outcome dec (sch false) (session_dec_pass p x src dst (sch false))
    session_dec-Outcome =
        let t =
          session_dec-Passed p r.laws.ring_laws x src r.pool r.few r.sid_size dst ready.size
            (sch false) all_slots in_order fresh in
        record {
          done = t.done;
          acc = inr (unfold expected in t.acc);
          ready = record {
            size = omega (arith, t.size, ready.size);
            tx = subst (Sends p.ring x.ring_key) (sym t.tx) ready.tx;
          };
        }

    -- Every arm that the schedule is made for ends as its family does.
    pub arm-Outcome :
        (a : Arm) (hot : Bool)
        → is_session a && hot ≡ false
        → Outcome (family_of a) (sch hot) (run_pass p a x src dst (sch hot))
    unfolding run_pass
    arm-Outcome null_arm hot h = null-Outcome hot
    arm-Outcome copy_payload hot h = copy-Outcome hot
    arm-Outcome rc_aesgcm256_dec hot h = rc_dec-Outcome hot
    arm-Outcome ring_aesgcm256_dec hot h = ring_dec-Outcome hot
    arm-Outcome rc_chacha_dec hot h = chacha_dec-Outcome hot
    arm-Outcome session_decrypt true h = cc
    arm-Outcome session_decrypt false h = session_dec-Outcome
    arm-Outcome rc_aesgcm256_enc hot h = rc_enc-Outcome hot
    arm-Outcome ring_aesgcm256_enc hot h = ring_enc-Outcome hot
    arm-Outcome rc_chacha_enc hot h = chacha_enc-Outcome hot
    arm-Outcome session_encrypt hot h = session_enc-Outcome hot

    -- And the receiver of the session's arm has committed the whole pass.
    pub arm_commits :
        (a : Arm) (hot : Bool)
        → is_session a && hot ≡ false
        → is_session a ≡ true
        → packets_received (run_pass p a x src dst (sch hot)).rx ≡ (sch hot).n
    unfolding run_pass
    arm_commits session_decrypt true h e = cc
    arm_commits session_decrypt false h e =
        (session_dec_pass-Complete p r.laws.ring_laws x src r.pool r.few r.sid_size dst ready.size
          (sch false) all_slots in_order fresh).2
    arm_commits null_arm hot h e = cc
    arm_commits copy_payload hot h e = cc
    arm_commits rc_aesgcm256_dec hot h e = cc
    arm_commits ring_aesgcm256_dec hot h e = cc
    arm_commits rc_chacha_dec hot h e = cc
    arm_commits rc_aesgcm256_enc hot h e = cc
    arm_commits ring_aesgcm256_enc hot h e = cc
    arm_commits rc_chacha_enc hot h e = cc
    arm_commits session_encrypt hot h e = cc
