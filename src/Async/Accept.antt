-- ===== src/Async/Accept.antt =====
-- What __redisAsyncCommand does with a command: refuse it, or queue it whole.
use multiplexing_hiredis.Common.{
  ℕ, zero, suc, ◌≡◌, ◌⊎◌, inl, inr, refl, ap, ◌∙◌, subst, Bool, true, false, ◌&&◌, ◌||◌, Option,
  none, some, List, [], ◌∷◌, ◌++◌, arith, Bool-cases, Bytes, codes, length, take, drop, ◌==◌,
  if◌then◌else◌,
}
use multiplexing_hiredis.Common.Outcome.{Outcome, ok, abort, out_of_fuel, ◌>>=◌}
use multiplexing_hiredis.Sds
use multiplexing_hiredis.Reader.State.{Status, redis_ok, redis_err}
use multiplexing_hiredis.Context.{append_command}
use multiplexing_hiredis.Format.Vararg.{peek}
use multiplexing_hiredis.Async.State.{
  Callback, DictFunctions, add_write, AsyncContext, set_subscribed, set_monitoring, push_callback,
}
use multiplexing_hiredis.Async.Commands.{
  Argument, to_lower, next_argument, starts_with, subscribe_one, subscribe_all, register_regular,
  register, queue_command, async_command,
}

pub push_callback_lem :
    (cb : Callback) (cbs : List Callback) → push_callback cb cbs ≡ cbs ++ (cb ∷ [])
unfolding push_callback
push_callback_lem cb [] = refl
push_callback_lem cb (c ∷ cbs) = ap (λ l. c ∷ l) (push_callback_lem cb cbs)

-- A list of callbacks is as before, or has one more at its end.
abbrev pub Grown : Callback → List Callback → List Callback → Type 0
Grown cb before after = (after ≡ before) ⊎ (after ≡ before ++ (cb ∷ []))

module _ {Obj Store Dict : Type 0} (dict : DictFunctions Dict) where
  -- A callback was registered: nothing is written and nothing is done yet.
  record Registered (cb : Callback) (a b : AsyncContext Obj Store Dict) : Type 0 where
    same_output : b.c.obuf ≡ a.c.obuf
    same_trace : b.trace ≡ a.trace
    replies_grown : Grown cb a.replies b.replies
    invalid_grown : Grown cb a.invalid b.invalid

  -- Only the dictionaries and the flags have changed.
  record Listed (a b : AsyncContext Obj Store Dict) : Type 0 where
    same_output : b.c.obuf ≡ a.c.obuf
    same_trace : b.trace ≡ a.trace
    same_replies : b.replies ≡ a.replies
    same_invalid : b.invalid ≡ a.invalid

  -- A command was refused and the context is as it was, or it stands whole at the end of the output.
  pub data Answered (cb : Callback) (cmd : Bytes) (a : AsyncContext Obj Store Dict)
      : Status → AsyncContext Obj Store Dict → Type 0 where
    refused : Answered cb cmd a redis_err a
    accepted :
        {b : AsyncContext Obj Store Dict}
        → b.c.obuf ≡ a.c.obuf ++ cmd
        → b.trace ≡ a.trace ++ (add_write ∷ [])
        → Grown cb a.replies b.replies
        → Grown cb a.invalid b.invalid
        → Answered cb cmd a redis_ok b

  subscribe_one-Listed :
      (pvariant : Bool) (name : Bytes) (cb : Callback) (a b : AsyncContext Obj Store Dict)
      → subscribe_one dict pvariant name cb a ≡ ok b
      → Listed a b
  unfolding subscribe_one
  subscribe_one-Listed true name cb a b h = ground arith
  subscribe_one-Listed false name cb a b h = ground arith

  Listed-trans : {a b d : AsyncContext Obj Store Dict} → Listed a b → Listed b d → Listed a d
  Listed-trans v w = record {
    same_output = w.same_output ∙ v.same_output;
    same_trace = w.same_trace ∙ v.same_trace;
    same_replies = w.same_replies ∙ v.same_replies;
    same_invalid = w.same_invalid ∙ v.same_invalid;
  }

  Listed-Registered :
      {cb : Callback} {a b : AsyncContext Obj Store Dict} → Listed a b → Registered cb a b
  Listed-Registered v = record {
    same_output = v.same_output;
    same_trace = v.same_trace;
    replies_grown = inl v.same_replies;
    invalid_grown = inl v.same_invalid;
  }

  -- The rest of the loop over a command's arguments keeps what it should.
  abbrev Again : ℕ → Bool → Callback → AsyncContext Obj Store Dict → Type 0
  Again fuel pvariant cb b =
      (q : Bytes) (a₁ : AsyncContext Obj Store Dict)
      → subscribe_all dict fuel pvariant cb q a₁ ≡ ok b
      → Listed a₁ b

  subscribe_all-Listed :
      (fuel : ℕ) (pvariant : Bool) (cb : Callback) (p : Bytes) (a b : AsyncContext Obj Store Dict)
      → subscribe_all dict fuel pvariant cb p a ≡ ok b
      → Listed a b
  unfolding subscribe_all
  subscribe_all-Listed zero pvariant cb p a b h = ground arith
  subscribe_all-Listed (suc fuel) pvariant cb p a b h =
      go (next_argument p) (λ q a₁ e. subscribe_all-Listed fuel pvariant cb q a₁ b e) h
    where
      then_all :
          (arg : Argument) (again : Again fuel pvariant cb b)
          (o : Outcome (AsyncContext Obj Store Dict))
          → subscribe_one dict pvariant (take arg.len arg.str) cb a ≡ o
          → (o >>= λ ac'. subscribe_all dict fuel pvariant cb arg.next ac') ≡ ok b
          → Listed a b
      then_all arg again (ok a₁) e h' =
          Listed-trans (subscribe_one-Listed pvariant (take arg.len arg.str) cb a a₁ e)
            (again arg.next a₁ h')
      then_all arg again abort e h' = ground arith
      then_all arg again out_of_fuel e h' = ground arith

      go :
          (o : Outcome (Option Argument)) (again : Again fuel pvariant cb b)
          → elim o as (λ _. Outcome (AsyncContext Obj Store Dict)) [
            | ok none ↦ ok a
            | ok (some arg) ↦ subscribe_one dict pvariant (take arg.len arg.str) cb a >>= λ ac'.
                subscribe_all dict fuel pvariant cb arg.next ac'
            | abort ↦ abort
            | out_of_fuel ↦ out_of_fuel
          ]
            ≡ ok b
          → Listed a b
      go (ok none) again h' = ground arith
      go (ok (some arg)) again h' =
          then_all arg again (subscribe_one dict pvariant (take arg.len arg.str) cb a) refl h'
      go abort again h' = ground arith
      go out_of_fuel again h' = ground arith

  same_context : {a : AsyncContext Obj Store Dict} → Listed a a
  same_context = record {
    same_output = refl;
    same_trace = refl;
    same_replies = refl;
    same_invalid = refl;
  }

  subscribed_all :
      {cb : Callback} {a : AsyncContext Obj Store Dict} (b : AsyncContext Obj Store Dict)
      → Listed (set_subscribed true a) b
      → Registered cb a b
  subscribed_all b v = record {
    same_output = v.same_output;
    same_trace = v.same_trace;
    replies_grown = inl v.same_replies;
    invalid_grown = inl v.same_invalid;
  }

  pushed-Registered :
      (cb : Callback) (a : AsyncContext Obj Store Dict)
      → Registered cb a (record (set_monitoring a) { replies = push_callback cb a.replies })
  pushed-Registered cb a = record {
    same_output = refl;
    same_trace = refl;
    replies_grown = inr (push_callback_lem cb a.replies);
    invalid_grown = inl refl;
  }

  register_regular-Registered :
      (cb : Callback) (a : AsyncContext Obj Store Dict)
      → Registered cb a (register_regular dict cb a)
  unfolding register_regular
  register_regular-Registered cb a = elim (Bool-cases a.c.flags.subscribed) [
    | inl on ↦ rw on (record {
      same_output = refl;
      same_trace = refl;
      replies_grown = inl refl;
      invalid_grown = inr (push_callback_lem cb a.invalid);
    })
    | inr off ↦ rw off (record {
      same_output = refl;
      same_trace = refl;
      replies_grown = inr (push_callback_lem cb a.replies);
      invalid_grown = inl refl;
    })
  ]

  given :
      {cb : Callback} {a b b' : AsyncContext Obj Store Dict}
      → Registered cb a b
      → ◌≡◌ {A = Outcome (Option (AsyncContext Obj Store Dict))} (ok (some b)) (ok (some b'))
      → Registered cb a b'
  given {cb} {a} {b} {b'} v h = let e : b ≡ b' = ground arith in subst (λ x. Registered cb a x) e v

  register-Registered :
      (cb : Callback) (first : Argument) (a b : AsyncContext Obj Store Dict)
      → register dict cb first a ≡ ok (some b)
      → Registered cb a b
  unfolding register register_regular
  register-Registered cb first a b h =
      go
        (subscribe_all dict (suc (length first.next)) (to_lower (peek first.str) == 112) cb
          first.next (set_subscribed true a))
        refl (peek first.next == 36 && starts_with (codes "subscribe\r\n") (kind first))
        (starts_with (codes "unsubscribe\r\n") (kind first))
        (starts_with (codes "monitor\r\n") (kind first)) h
    where
      kind : Argument → Bytes
      kind arg = if to_lower (peek arg.str) == 112 then drop 1 arg.str else arg.str

      go :
          (all : Outcome (AsyncContext Obj Store Dict))
          → subscribe_all dict
              (suc (length first.next))
              (to_lower (peek first.str) == 112)
              cb
              first.next
              (set_subscribed true a)
            ≡ all
          → (subscribes unsubscribes monitors : Bool)
          → (if subscribes
              then (all >>= λ ac'. ok (some ac'))
              else if unsubscribes
              then ok (if a.c.flags.subscribed then some a else none)
              else if monitors
              then ok (some (record (set_monitoring a) { replies = push_callback cb a.replies }))
              else ok (some (register_regular dict cb a)))
            ≡ ok (some b)
          → Registered cb a b
      go (ok a₁) e true u m h' =
          given
            (subscribed_all a₁ (
              subscribe_all-Listed (suc (length first.next)) (to_lower (peek first.str) == 112) cb
                first.next (set_subscribed true a) a₁ e))
            h'
      go abort e true u m h' = ground arith
      go out_of_fuel e true u m h' = ground arith
      go all e false true m h' = elim (Bool-cases a.c.flags.subscribed) [
        | inl on ↦ given (Listed-Registered same_context) (
            subst
              (λ x.
                ◌≡◌ {A = Outcome (Option (AsyncContext Obj Store Dict))}
                  (ok (if x then some a else none)) (ok (some b)))
              on h')
        | inr off ↦ ground arith
      ]
      go all e false false true h' = given (pushed-Registered cb a) h'
      go all e false false false h' = given (register_regular-Registered cb a) h'

  finished_command :
      (cb : Callback) (cmd : Bytes) (a b : AsyncContext Obj Store Dict)
      → Registered cb a b
      → Answered cb cmd a redis_ok (queue_command dict true cmd b)
  unfolding queue_command append_command Sds.cat_len
  finished_command cb cmd a b v =
      accepted (ap (λ s. s ++ cmd) v.same_output) (ap (λ t. t ++ (add_write ∷ [])) v.same_trace)
        v.replies_grown v.invalid_grown

  -- The result that was returned is the one at hand.
  answer :
      {cb : Callback} {cmd : Bytes} {a b b' : AsyncContext Obj Store Dict} {st st' : Status}
      → Answered cb cmd a st b
      → ◌≡◌ {A = Outcome (Status × AsyncContext Obj Store Dict)} (ok (st, b)) (ok (st', b'))
      → Answered cb cmd a st' b'
  answer {cb} {cmd} {a} {b} {b'} {st} {st'} v h =
      let e : st ≡ st' = ground arith in
      let e' : b ≡ b' = ground arith in
      subst (λ x. Answered cb cmd a x b') e (subst (λ x. Answered cb cmd a st x) e' v)

  -- If the call for a command returns, and there is memory for it, then either it is refused and the
  -- context is as before, or the command stands whole at the end of the output, a write is
  -- scheduled, and each list of callbacks is as before or has the command's callback at its end.
  pub async_command-Answered :
      (cb : Callback) (cmd : Bytes) (a b : AsyncContext Obj Store Dict) (st : Status)
      → async_command dict true cb cmd a ≡ ok (st, b)
      → Answered cb cmd a st b
  unfolding async_command
  async_command-Answered cb cmd a b st h =
      elim (Bool-cases (a.c.flags.disconnecting || a.c.flags.freeing)) [
        | inl e ↦ answer refused (rw e at h)
        | inr e ↦ go (next_argument cmd) (rw e at h)
      ]
    where
      registered :
          (first : Argument) (o : Outcome (Option (AsyncContext Obj Store Dict)))
          → register dict cb first a ≡ o
          → elim o as (λ _. Outcome (Status × AsyncContext Obj Store Dict)) [
            | ok (some ac') ↦ ok (redis_ok, queue_command dict true cmd ac')
            | ok none ↦ ok (redis_err, a)
            | abort ↦ abort
            | out_of_fuel ↦ out_of_fuel
          ]
            ≡ ok (st, b)
          → Answered cb cmd a st b
      registered first (ok (some a₁)) e h' =
          answer (finished_command cb cmd a a₁ (register-Registered cb first a a₁ e)) h'
      registered first (ok none) e h' = answer refused h'
      registered first abort e h' = ground arith
      registered first out_of_fuel e h' = ground arith

      go :
          (o : Outcome (Option Argument))
          → elim o as (λ _. Outcome (Status × AsyncContext Obj Store Dict)) [
            | ok (some first) ↦
                elim (register dict cb first a)
                  as (λ _. Outcome (Status × AsyncContext Obj Store Dict)) [
                    | ok (some ac') ↦ ok (redis_ok, queue_command dict true cmd ac')
                    | ok none ↦ ok (redis_err, a)
                    | abort ↦ abort
                    | out_of_fuel ↦ out_of_fuel
                  ]
            | ok none ↦ abort
            | abort ↦ abort
            | out_of_fuel ↦ out_of_fuel
          ]
            ≡ ok (st, b)
          → Answered cb cmd a st b
      go (ok (some first)) h' = registered first (register dict cb first a) refl h'
      go (ok none) h' = ground arith
      go abort h' = ground arith
      go out_of_fuel h' = ground arith
