-- ===== src/Async/Ends.antt =====
-- The loop over the arguments of a subscription ends.
use multiplexing_hiredis.Common.{
  ℕ, zero, suc, ◌+◌, ◌≤◌, ◌<◌, ◌≡◌, ◌≢◌, inl, inr, refl, Bool, true, false, Option, none, some, [],
  ◌∷◌, arith, Bool-cases, Bytes, codes, length, length-drop, take, drop, ◌&&◌, ◌||◌, if◌then◌else◌,
  ◌==◌, leb,
}
use multiplexing_hiredis.Common.Int.{ℤ, pos, negsuc, to_int32}
use multiplexing_hiredis.Common.Outcome.{Outcome, ok, abort, out_of_fuel, ◌>>=◌}
use multiplexing_hiredis.Format.Vararg.{peek}
use multiplexing_hiredis.Async.State.{
  Callback, DictFunctions, AsyncContext, set_subscribed, set_monitoring, push_callback,
}
use multiplexing_hiredis.Reader.State.{Status, redis_ok, redis_err}
use multiplexing_hiredis.Async.Commands.{
  register, register_regular, starts_with, to_lower, queue_command, async_command, Argument,
  find_char, strtol, argument_at, argument_from, next_argument, subscribe_one, subscribe_all,
}

-- What was found is no longer than `n`.
abbrev Below : ℕ → Option Bytes → Type 0
Below n none = Unit
Below n (some q) = length q ≤ n

find_char-Below : (c : ℕ) (s : Bytes) → Below (length s) (find_char c s)
unfolding find_char
find_char-Below c [] = tt
find_char-Below c (d ∷ s) = elim (Bool-cases (d == c)) [
  | inl e ↦ rw e (omega arith)
  | inr e ↦ elim (Bool-cases (d == 0)) [
    | inl z ↦ rw (e, z) tt
    | inr z ↦ rw (e, z) (later (find_char c s) (find_char-Below c s))
  ]
]
  where
    later : (o : Option Bytes) → Below (length s) o → Below (suc (length s)) o
    later none h = tt
    later (some q) h = omega arith

-- The following argument, if there is one, starts before `n` bytes from the end.
abbrev Shorter : ℕ → Outcome (Option Argument) → Type 0
Shorter n (ok none) = Unit
Shorter n (ok (some arg)) = length arg.next < n
Shorter n abort = Unit
Shorter n out_of_fuel = 1 ≤ 0

argument_at-Shorter : (z : ℤ) (q : Bytes) (n : ℕ) → length q ≤ n → Shorter n (argument_at z q)
unfolding argument_at
argument_at-Shorter (negsuc _) q n h = tt
argument_at-Shorter (pos m) q n h = elim (Bool-cases (leb (m + 4) (length q))) [
  | inl e ↦ rw e (omega (arith, length-drop (m + 4) q, leb-le (m + 4) (length q) e))
  | inr e ↦ rw e tt
]
  where
    leb-le : (a b : ℕ) → leb a b ≡ true → a ≤ b
    leb-le a b e = ground arith

argument_from-Shorter : (p : Bytes) (n : ℕ) → length p ≤ n → Shorter n (argument_from p)
unfolding argument_from
argument_from-Shorter p n h = go (find_char 13 p) (find_char-Below 13 p)
  where
    go :
        (o : Option Bytes)
        → Below (length p) o
        → Shorter n (elim o as (λ _. Outcome (Option Argument)) [
          | none ↦ abort
          | some q ↦ argument_at (to_int32 (strtol (drop 1 p))) q
        ])
    go none b = tt
    go (some q) b = argument_at-Shorter (to_int32 (strtol (drop 1 p))) q n (omega arith)

next_argument-Shorter : (p : Bytes) → Shorter (length p) (next_argument p)
unfolding next_argument
next_argument-Shorter p = elim (Bool-cases (peek p == 36)) [
  | inl e ↦ rw e (argument_from-Shorter p (length p) (omega arith))
  | inr e ↦ rw e (go (find_char 36 p) (find_char-Below 36 p))
]
  where
    go :
        (o : Option Bytes)
        → Below (length p) o
        → Shorter (length p) (elim o as (λ _. Outcome (Option Argument)) [
          | none ↦ ok none
          | some q ↦ argument_from q
        ])
    go none b = tt
    go (some q) b = argument_from-Shorter q (length p) b

module _ {Obj Store Dict : Type 0} (dict : DictFunctions Dict) where
  subscribe_one-ends :
      (pvariant : Bool) (name : Bytes) (cb : Callback) (a : AsyncContext Obj Store Dict)
      → subscribe_one dict pvariant name cb a ≢ out_of_fuel
  unfolding subscribe_one
  subscribe_one-ends true name cb a h = ground arith
  subscribe_one-ends false name cb a h = ground arith

  subscribe_all-ends :
      (fuel : ℕ) (pvariant : Bool) (cb : Callback) (q : Bytes) (a : AsyncContext Obj Store Dict)
      → length q < fuel
      → subscribe_all dict fuel pvariant cb q a ≢ out_of_fuel
  unfolding subscribe_all
  subscribe_all-ends zero pvariant cb p a h = ground arith
  subscribe_all-ends (suc fuel) pvariant cb p a h =
      go (λ q a₁ less. subscribe_all-ends fuel pvariant cb q a₁ less) (next_argument p)
        (next_argument-Shorter p)
    where
      then_all :
          (arg : Argument)
          → ((q : Bytes) (a₁ : AsyncContext Obj Store Dict)
              → length q < fuel
              → subscribe_all dict fuel pvariant cb q a₁ ≢ out_of_fuel)
          → length arg.next < fuel
          → (o : Outcome (AsyncContext Obj Store Dict)) → o ≢ out_of_fuel
          → (o >>= λ ac'. subscribe_all dict fuel pvariant cb arg.next ac') ≢ out_of_fuel
      then_all arg again less (ok a₁) n h' = again arg.next a₁ less h'
      then_all arg again less abort n h' = ground arith
      then_all arg again less out_of_fuel n h' = n refl

      go :
          ((q : Bytes) (a₁ : AsyncContext Obj Store Dict)
            → length q < fuel
            → subscribe_all dict fuel pvariant cb q a₁ ≢ out_of_fuel)
          → (o : Outcome (Option Argument)) → Shorter (length p) o
          → elim o as (λ _. Outcome (AsyncContext Obj Store Dict)) [
            | ok none ↦ ok a
            | ok (some arg) ↦ subscribe_one dict pvariant (take arg.len arg.str) cb a >>= λ ac'.
                subscribe_all dict fuel pvariant cb arg.next ac'
            | abort ↦ abort
            | out_of_fuel ↦ out_of_fuel
          ]
            ≢ out_of_fuel
      go again (ok none) s h' = ground arith
      go again (ok (some arg)) s h' =
          then_all arg again (omega arith) (subscribe_one dict pvariant (take arg.len arg.str) cb a)
            (subscribe_one-ends pvariant (take arg.len arg.str) cb a) h'
      go again abort s h' = ground arith
      go again out_of_fuel s h' = omega arith

  register-ends :
      (cb : Callback) (first : Argument) (a : AsyncContext Obj Store Dict)
      → register dict cb first a ≢ out_of_fuel
  unfolding register
  register-ends cb first a =
      go
        (subscribe_all dict (suc (length first.next)) (to_lower (peek first.str) == 112) cb
          first.next (set_subscribed true a))
        (subscribe_all-ends (suc (length first.next)) (to_lower (peek first.str) == 112) cb
          first.next (set_subscribed true a) (omega arith))
        (peek first.next == 36 && starts_with (codes "subscribe\r\n") (kind first))
        (starts_with (codes "unsubscribe\r\n") (kind first))
        (starts_with (codes "monitor\r\n") (kind first))
    where
      kind : Argument → Bytes
      kind arg = if to_lower (peek arg.str) == 112 then drop 1 arg.str else arg.str

      go :
          (all : Outcome (AsyncContext Obj Store Dict))
          → all ≢ out_of_fuel
          → (subscribes unsubscribes monitors : Bool)
          → (if subscribes
              then (all >>= λ ac'. ok (some ac'))
              else if unsubscribes
              then ok (if a.c.flags.subscribed then some a else none)
              else if monitors
              then ok (some (record (set_monitoring a) { replies = push_callback cb a.replies }))
              else ok (some (register_regular dict cb a)))
            ≢ out_of_fuel
      go (ok a₁) n true u m h' = ground arith
      go abort n true u m h' = ground arith
      go out_of_fuel n true u m h' = n refl
      go all n false true m h' = ground arith
      go all n false false true h' = ground arith
      go all n false false false h' = ground arith

  -- The call for a command ends, whatever the command, the context and the memory: the loop over
  -- its arguments has fuel enough.
  pub async_command-ends :
      (room : Bool) (cb : Callback) (cmd : Bytes) (a : AsyncContext Obj Store Dict)
      → async_command dict room cb cmd a ≢ out_of_fuel
  unfolding async_command
  async_command-ends room cb cmd a =
      go (a.c.flags.disconnecting || a.c.flags.freeing) (next_argument cmd)
        (next_argument-Shorter cmd)
    where
      registered :
          (o : Outcome (Option (AsyncContext Obj Store Dict)))
          → o ≢ out_of_fuel
          → elim o as (λ _. Outcome (Status × AsyncContext Obj Store Dict)) [
            | ok (some ac') ↦ ok (redis_ok, queue_command dict room cmd ac')
            | ok none ↦ ok (redis_err, a)
            | abort ↦ abort
            | out_of_fuel ↦ out_of_fuel
          ]
            ≢ out_of_fuel
      registered (ok (some a₁)) n h = ground arith
      registered (ok none) n h = ground arith
      registered abort n h = ground arith
      registered out_of_fuel n h = n refl

      go :
          (refuse : Bool) (o : Outcome (Option Argument))
          → Shorter (length cmd) o
          → (if refuse
              then ok (redis_err, a)
              else elim o as (λ _. Outcome (Status × AsyncContext Obj Store Dict)) [
                | ok (some first) ↦
                    elim (register dict cb first a)
                      as (λ _. Outcome (Status × AsyncContext Obj Store Dict)) [
                        | ok (some ac') ↦ ok (redis_ok, queue_command dict room cmd ac')
                        | ok none ↦ ok (redis_err, a)
                        | abort ↦ abort
                        | out_of_fuel ↦ out_of_fuel
                      ]
                | ok none ↦ abort
                | abort ↦ abort
                | out_of_fuel ↦ out_of_fuel
              ])
            ≢ out_of_fuel
      go true o s h = ground arith
      go false (ok (some first)) s h =
          registered (register dict cb first a) (register-ends cb first a) h
      go false (ok none) s h = ground arith
      go false abort s h = ground arith
      go false out_of_fuel s h = omega arith
