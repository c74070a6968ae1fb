-- ===== src/Async/Laws.antt =====
-- What freeing an asynchronous context does to the callbacks that still wait.
use multiplexing_hiredis.Common.{
  ℕ, zero, suc, ◌<◌, ◌≡◌, refl, sym, ap, ◌∙◌, ◌&&◌, Option, none, some, List, [], ◌∷◌, ◌++◌, arith,
  inl, inr, Bool-cases, if◌then◌else◌, length, append_assoc, append-nil,
}
use multiplexing_hiredis.Common.Outcome.{Outcome, ok}
use multiplexing_hiredis.Reader.State.{is_error, Status, redis_ok, redis_err}
use multiplexing_hiredis.Async.State.{
  Callback, DictFunctions, Event, ran, cleanup, disconnect_callback, signal_free, free_context,
  AsyncContext, shift_callback, run_callback,
}
use multiplexing_hiredis.Async.Teardown.{
  drain_replies, drain_invalid, run_subscribed, run_disconnect, free_rest, free_patterns,
  free_channels, async_free_now,
}

-- The events of running callbacks without a reply: each one that has a function, in order.
pub runs : {Obj : Type 0} → List Callback → List (Event Obj)
runs [] = []
runs (cb ∷ cbs) = elim cb.fn [ none ↦ runs cbs | some _ ↦ ran cb none ∷ runs cbs ]

module _ {Obj Store Dict : Type 0} where
  -- What the disconnect callback is told.
  pub parting_status : AsyncContext Obj Store Dict → Status
  parting_status ac =
      if ac.c.flags.freeing then redis_ok else if is_error ac.err then redis_err else redis_ok

  -- The last events of a context.
  unfoldable pub parting : AsyncContext Obj Store Dict → List (Event Obj)
  unfolding parting_status
  parting ac =
      cleanup
      ∷ ((if ac.on_disconnect && ac.c.flags.connected
            then disconnect_callback (parting_status ac) ∷ []
            else [])
          ++ ((if ac.freed then signal_free ∷ [] else []) ++ (free_context ∷ [])))

  -- What running callbacks changes.
  record Ran (cbs : List Callback) (a b : AsyncContext Obj Store Dict) : Type 0 where
    events : b.trace ≡ a.trace ++ runs cbs
    channels_kept : b.channels ≡ a.channels
    patterns_kept : b.patterns ≡ a.patterns
    parting_kept : parting b ≡ parting a

module _ {Obj Store Dict : Type 0} (dict : DictFunctions Dict)
    (user : Callback → Option Obj → AsyncContext Obj Store Dict → AsyncContext Obj Store Dict)
    (quiet : (cb : Callback) (o : Option Obj) (ac : AsyncContext Obj Store Dict)
      → user cb o ac ≡ ac) where
  run_some-Ran :
      (f d : ℕ) (ac b : AsyncContext Obj Store Dict)
      → b ≡ run_callback user (record { fn = some f; privdata = d }) none ac
      → Ran (record { fn = some f; privdata = d } ∷ []) ac b
        × (b.replies ≡ ac.replies)
        × (b.invalid ≡ ac.invalid)
  unfolding run_callback runs parting parting_status
  run_some-Ran f d ac b h =
      rw (h, quiet)
        (
          record { events = refl; channels_kept = refl; patterns_kept = refl; parting_kept = refl },
          refl,
          refl,
        )

  run_fn-Ran :
      (fn : Option ℕ) (d : ℕ) (ac : AsyncContext Obj Store Dict)
      → Ran
          (record { fn = fn; privdata = d } ∷ [])
          ac
          (run_callback user (record { fn = fn; privdata = d }) none ac)
        × ((run_callback user (record { fn = fn; privdata = d }) none ac).replies ≡ ac.replies)
        × ((run_callback user (record { fn = fn; privdata = d }) none ac).invalid ≡ ac.invalid)
  unfolding run_callback runs parting parting_status
  run_fn-Ran none d ac = (
    record {
      events = sym (append-nil ac.trace);
      channels_kept = refl;
      patterns_kept = refl;
      parting_kept = refl;
    },
    refl,
    refl,
  )
  run_fn-Ran (some f) d ac = run_some-Ran f d ac _ refl

  run_one-Ran :
      (cb : Callback) (ac : AsyncContext Obj Store Dict)
      → Ran (cb ∷ []) ac (run_callback user cb none ac)
        × ((run_callback user cb none ac).replies ≡ ac.replies)
        × ((run_callback user cb none ac).invalid ≡ ac.invalid)
  run_one-Ran cb ac = run_fn-Ran cb.fn cb.privdata ac

  runs-cons :
      (cb : Callback) (cbs : List Callback)
      → runs {Obj = Obj} (cb ∷ cbs) ≡ runs (cb ∷ []) ++ runs cbs
  unfolding runs
  runs-cons cb cbs = go cb.fn
    where
      go :
          (fn : Option ℕ)
          → elim fn as (λ _. List (Event Obj)) [ none ↦ runs cbs | some _ ↦ ran cb none ∷ runs cbs ]
            ≡ elim fn as (λ _. List (Event Obj)) [ none ↦ runs [] | some _ ↦ ran cb none ∷ runs [] ]
              ++ runs cbs
      go none = refl
      go (some f) = refl

  nothing-Ran : (ac : AsyncContext Obj Store Dict) → Ran [] ac ac
  unfolding runs
  nothing-Ran ac = record {
    events = sym (append-nil ac.trace);
    channels_kept = refl;
    patterns_kept = refl;
    parting_kept = refl;
  }

  Ran-cons :
      {cb : Callback} {cbs : List Callback} {a b d : AsyncContext Obj Store Dict}
      → Ran (cb ∷ []) a b
      → Ran cbs b d
      → Ran (cb ∷ cbs) a d
  Ran-cons {cb} {cbs} {a} v w = record {
    events =
        w.events
        ∙ ap (λ t. t ++ runs cbs) v.events
        ∙ append_assoc a.trace (runs (cb ∷ [])) (runs cbs)
        ∙ ap (λ l. a.trace ++ l) (sym (runs-cons cb cbs));
    channels_kept = w.channels_kept ∙ v.channels_kept;
    patterns_kept = w.patterns_kept ∙ v.patterns_kept;
    parting_kept = w.parting_kept ∙ v.parting_kept;
  }

  -- A list of callbacks was run, from `a` on; `replies` and `invalid` are then left.
  record Drained (cbs replies invalid : List Callback) (a : AsyncContext Obj Store Dict)
      (o : Outcome (AsyncContext Obj Store Dict)) : Type 0 where
    after : AsyncContext Obj Store Dict
    returns : o ≡ ok after
    ran_all : Ran cbs a after
    replies_left : after.replies ≡ replies
    invalid_left : after.invalid ≡ invalid

  drain_replies-Drained :
      (cbs : List Callback) (fuel : ℕ) (ac : AsyncContext Obj Store Dict)
      → length cbs < fuel
      → ac.replies ≡ cbs
      → Drained cbs [] ac.invalid ac (drain_replies dict user fuel ac)
  unfolding drain_replies shift_callback
  drain_replies-Drained cbs zero ac h e = ground arith
  drain_replies-Drained [] (suc fuel) ac h e = record {
    after = ac;
    returns = rw e refl;
    ran_all = nothing-Ran ac;
    replies_left = e;
    invalid_left = refl;
  }
  drain_replies-Drained (cb ∷ cbs) (suc fuel) ac h e =
      let ac₁ = record ac { replies = cbs } in
      let (v, kept, kept') = run_one-Ran cb ac₁ in
      let d = drain_replies-Drained cbs fuel (run_callback user cb none ac₁) (omega arith) kept in
      let run : Ran (cb ∷ []) ac (run_callback user cb none ac₁) = record {
        events = v.events;
        channels_kept = v.channels_kept;
        patterns_kept = v.patterns_kept;
        parting_kept = v.parting_kept ∙ unfold parting parting_status in refl;
      } in
      record {
        after = d.after;
        returns = rw e d.returns;
        ran_all = Ran-cons run d.ran_all;
        replies_left = d.replies_left;
        invalid_left = d.invalid_left ∙ kept';
      }

  drain_invalid-Drained :
      (cbs : List Callback) (fuel : ℕ) (ac : AsyncContext Obj Store Dict)
      → length cbs < fuel
      → ac.invalid ≡ cbs
      → Drained cbs ac.replies [] ac (drain_invalid dict user fuel ac)
  unfolding drain_invalid shift_callback
  drain_invalid-Drained cbs zero ac h e = ground arith
  drain_invalid-Drained [] (suc fuel) ac h e = record {
    after = ac;
    returns = rw e refl;
    ran_all = nothing-Ran ac;
    replies_left = refl;
    invalid_left = e;
  }
  drain_invalid-Drained (cb ∷ cbs) (suc fuel) ac h e =
      let ac₁ = record ac { invalid = cbs } in
      let (v, kept, kept') = run_one-Ran cb ac₁ in
      let d = drain_invalid-Drained cbs fuel (run_callback user cb none ac₁) (omega arith) kept' in
      let run : Ran (cb ∷ []) ac (run_callback user cb none ac₁) = record {
        events = v.events;
        channels_kept = v.channels_kept;
        patterns_kept = v.patterns_kept;
        parting_kept = v.parting_kept ∙ unfold parting parting_status in refl;
      } in
      record {
        after = d.after;
        returns = rw e d.returns;
        ran_all = Ran-cons run d.ran_all;
        replies_left = d.replies_left ∙ kept;
        invalid_left = d.invalid_left;
      }

  run_subscribed-Ran :
      (cbs : List Callback) (ac : AsyncContext Obj Store Dict)
      → Ran cbs ac (run_subscribed dict user cbs ac)
        × ((run_subscribed dict user cbs ac).replies ≡ ac.replies)
        × ((run_subscribed dict user cbs ac).invalid ≡ ac.invalid)
  unfolding run_subscribed
  run_subscribed-Ran [] ac = (nothing-Ran ac, refl, refl)
  run_subscribed-Ran (cb ∷ cbs) ac =
      let (v, kept, kept') = run_one-Ran cb ac in
      let (w, left, left') = run_subscribed-Ran cbs (run_callback user cb none ac) in
      (Ran-cons v w, left ∙ kept, left' ∙ kept')

  -- How the context looks once it is freed.
  pub record Freed (chans pats : Dict) (ac : AsyncContext Obj Store Dict)
      (o : Outcome (AsyncContext Obj Store Dict)) : Type 0 where
    pub freed_context : AsyncContext Obj Store Dict
    pub returns : o ≡ ok freed_context
    pub no_replies : freed_context.replies ≡ []
    pub no_invalid : freed_context.invalid ≡ []
    pub no_channels : freed_context.channels ≡ none
    pub no_patterns : freed_context.patterns ≡ none
    pub all_events :
        freed_context.trace
        ≡ ((((ac.trace ++ runs ac.replies) ++ runs ac.invalid) ++ runs (dict.values chans))
            ++ runs (dict.values pats))
          ++ parting ac

  -- The end of the teardown, on a context without dictionaries.
  free_rest_lem :
      (ac : AsyncContext Obj Store Dict)
      → ((free_rest dict user ac).trace ≡ ac.trace ++ parting ac)
        × ((free_rest dict user ac).replies ≡ ac.replies)
        × ((free_rest dict user ac).invalid ≡ ac.invalid)
        × ((free_rest dict user ac).channels ≡ ac.channels)
        × ((free_rest dict user ac).patterns ≡ ac.patterns)
  unfolding free_rest run_disconnect parting parting_status
  free_rest_lem ac = elim (Bool-cases (ac.on_disconnect && ac.c.flags.connected)) [
    | inl p ↦ elim (Bool-cases ac.freed) [
      | inl q ↦ rw (p, q) (simp append_assoc, refl, refl, refl, refl)
      | inr q ↦ rw (p, q) (simp append_assoc, refl, refl, refl, refl)
    ]
    | inr p ↦ elim (Bool-cases ac.freed) [
      | inl q ↦ rw (p, q) (simp append_assoc, refl, refl, refl, refl)
      | inr q ↦ rw (p, q) (simp append_assoc, refl, refl, refl, refl)
    ]
  ]

  -- The context behind the callbacks of the channels, and behind those of the patterns.
  without_channels : Dict → AsyncContext Obj Store Dict → AsyncContext Obj Store Dict
  without_channels chans ac =
      let ran_all = run_subscribed dict user (dict.values chans) ac in
      record ran_all { channels = none }

  without_patterns : Dict → AsyncContext Obj Store Dict → AsyncContext Obj Store Dict
  without_patterns pats ac =
      let ran_all = run_subscribed dict user (dict.values pats) ac in
      record ran_all { patterns = none }

  free_patterns_lem :
      (pats : Dict) (ac : AsyncContext Obj Store Dict)
      → ac.patterns ≡ some pats
      → free_patterns dict user ac ≡ free_rest dict user (without_patterns pats ac)
  unfolding free_patterns without_patterns
  free_patterns_lem pats ac pt =
      ap
        (λ o. elim o as (λ _. AsyncContext Obj Store Dict) [
          | none ↦ ac
          | some d ↦ free_rest dict user (without_patterns d ac)
        ])
        pt

  free_channels_lem :
      (chans pats : Dict) (ac : AsyncContext Obj Store Dict)
      → ac.channels ≡ some chans
      → ac.patterns ≡ some pats
      → free_channels dict user ac
        ≡ free_rest dict user (without_patterns pats (without_channels chans ac))
  unfolding free_channels without_channels
  free_channels_lem chans pats ac ch pt =
      let (u, ur, ui) = run_subscribed-Ran (dict.values chans) ac in
      ap
        (λ o. elim o as (λ _. AsyncContext Obj Store Dict) [
          | none ↦ ac
          | some d ↦ free_patterns dict user (without_channels d ac)
        ])
        ch
      ∙ free_patterns_lem pats (without_channels chans ac) (u.patterns_kept ∙ pt)

  without_channels-parting :
      (chans : Dict) (ac : AsyncContext Obj Store Dict)
      → parting (without_channels chans ac) ≡ parting ac
  unfolding without_channels parting parting_status
  without_channels-parting chans ac =
      let (u, ur, ui) = run_subscribed-Ran (dict.values chans) ac in u.parting_kept

  without_patterns-parting :
      (pats : Dict) (ac : AsyncContext Obj Store Dict)
      → parting (without_patterns pats ac) ≡ parting ac
  unfolding without_patterns parting parting_status
  without_patterns-parting pats ac =
      let (u, ur, ui) = run_subscribed-Ran (dict.values pats) ac in u.parting_kept

  -- The teardown, once both lists were run.
  drained-Freed :
      (fuel : ℕ) (chans pats : Dict) (ac a₁ a₂ : AsyncContext Obj Store Dict)
      → drain_replies dict user fuel ac ≡ ok a₁
      → drain_invalid dict user fuel a₁ ≡ ok a₂
      → Ran ac.replies ac a₁
      → Ran ac.invalid a₁ a₂
      → a₂.replies ≡ []
      → a₂.invalid ≡ []
      → ac.channels ≡ some chans
      → ac.patterns ≡ some pats
      → Freed chans pats ac (async_free_now dict user fuel ac)
  unfolding async_free_now without_channels without_patterns
  drained-Freed fuel chans pats ac a₁ a₂ e₁ e₂ v₁ v₂ none₁ none₂ ch pt =
      let (u, ur, ui) = run_subscribed-Ran (dict.values chans) a₂ in
      let b = without_channels chans a₂ in
      let (w, wr, wi) = run_subscribed-Ran (dict.values pats) b in
      let (ft, fr, fi, fc, fp) = free_rest_lem (without_patterns pats b) in
      record {
        freed_context = free_rest dict user (without_patterns pats b);
        returns =
            rw (e₁, e₂)
              (ap ok (
                free_channels_lem chans pats a₂ (v₂.channels_kept ∙ v₁.channels_kept ∙ ch)
                  (v₂.patterns_kept ∙ v₁.patterns_kept ∙ pt)));
        no_replies = fr ∙ wr ∙ ur ∙ none₁;
        no_invalid = fi ∙ wi ∙ ui ∙ none₂;
        no_channels = fc ∙ w.channels_kept;
        no_patterns = fp;
        all_events =
            rw
              (
                ft,
                without_patterns-parting pats b,
                without_channels-parting chans a₂,
                v₂.parting_kept,
                v₁.parting_kept,
                w.events,
                u.events,
                v₂.events,
                v₁.events,
              )
              refl;
      }

  -- Take callbacks that leave the context as it is, dictionaries that are there, and fuel for both
  -- lists of callbacks. Then freeing the context ends; every callback that still waits is run once
  -- without a reply, first those of the regular replies and those for invalid commands in the order
  -- in which they were queued, then those of the channels and those of the patterns; the event
  -- library is cleaned up and the disconnect callback told afterwards, and nothing is left waiting.
  pub async_free_now-Freed :
      (fuel : ℕ) (chans pats : Dict) (ac : AsyncContext Obj Store Dict)
      → length ac.replies < fuel
      → length ac.invalid < fuel
      → ac.channels ≡ some chans
      → ac.patterns ≡ some pats
      → Freed chans pats ac (async_free_now dict user fuel ac)
  unfolding async_free_now free_channels free_patterns
  async_free_now-Freed fuel chans pats ac h h' ch pt =
      let d = drain_replies-Drained ac.replies fuel ac h refl in
      let d' = drain_invalid-Drained ac.invalid fuel d.after h' d.invalid_left in
      drained-Freed fuel chans pats ac d.after d'.after d.returns d'.returns d.ran_all d'.ran_all
        (d'.replies_left ∙ d.replies_left) d'.invalid_left ch pt
