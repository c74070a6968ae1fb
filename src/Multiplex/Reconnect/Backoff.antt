-- ===== src/Multiplex/Reconnect/Backoff.antt =====
-- The intervals between the attempts of reconnectDis, for contexts that cannot be connected.
use multiplexing_hiredis.Common.{
  ℕ, zero, suc, ◌+◌, ◌*◌, ◌^◌, ◌<◌, ◌≤◌, ◌≡◌, refl, sym, ap, ◌∙◌, subst, Bool, true, false, ◌&&◌,
  List, [], ◌∷◌, ◌++◌, Bytes, map, arith,
}
use native.Mathlib.Nat.{mul_assoc, pow-suc, suc-add, zero-add, mod-eq_of_lt}
use multiplexing_hiredis.Context.{context_init}
use multiplexing_hiredis.Multiplex.State.{is_connected, XContext}
use multiplexing_hiredis.Multiplex.Reconnect.{
  Attempt, uint32, attach_no_lock, reconnect_with, reconnect_now, reconnect_one, reconnect_pass,
  sort_out, reconnect_passes,
}

-- What an attempt needs.
abbrev pub succeeds : {Obj Store : Type 0} → Attempt Obj Store → Bool
succeeds a = a.memory && (a.room && is_connected a.seen)

module _ {Obj Store Dict : Type 0} where
  -- Where a context is connected to.
  abbrev pub address : XContext Obj Store Dict → Bytes × ℕ
  address xc = (xc.ip, xc.port)

  -- Both counters: the interval, and the passes that are left of it.
  abbrev counters : XContext Obj Store Dict → ℕ × ℕ
  counters xc = (xc.wait_time_reconn, xc.remain_wait_reconn)

  -- All contexts of the list are due for an attempt, in the given interval.
  unfoldable pub AllDue : ℕ → List (XContext Obj Store Dict) → Type 0
  AllDue w [] = Unit
  AllDue w (xc ∷ list) = (xc.wait_time_reconn ≡ w) × (xc.remain_wait_reconn ≡ 0) × AllDue w list

-- One pass without success, on the counters.
tick : ℕ × ℕ → ℕ × ℕ
tick (w, zero) = (uint32 (2 * w), uint32 (2 * w))
tick (w, suc r) = (w, r)

ticks : ℕ → ℕ × ℕ → ℕ × ℕ
ticks zero c = c
ticks (suc n) c = ticks n (tick c)

-- The passes up to the attempt behind `k` attempts without success: the attempt itself and the
-- interval behind it, which doubles.
pub passes : ℕ → ℕ → ℕ
passes zero w = 0
passes (suc k) w = suc (2 * w) + passes k (2 * w)

double_power : (k w : ℕ) → 2 ^ suc k * w ≡ 2 ^ k * (2 * w)
double_power k w = ap (λ x. x * w) (pow-suc 2 k) ∙ mul_assoc (2 ^ k) 2 w

le-power : (k w : ℕ) → w ≤ 2 ^ k * w
le-power zero w = omega arith
le-power (suc k) w = omega (arith, le-power k (2 * w), double_power k w)

passes-closed : (k w : ℕ) → passes k w + 2 * w ≡ k + 2 ^ suc k * w
unfolding passes
passes-closed zero w = omega arith
passes-closed (suc k) w = omega (arith, passes-closed k (2 * w), double_power (suc k) w)

ticks-add : (m n : ℕ) (c : ℕ × ℕ) → ticks (m + n) c ≡ ticks n (ticks m c)
unfolding ticks
ticks-add zero n c = ap (λ k. ticks k c) (zero-add n)
ticks-add (suc m) n c = ap (λ k. ticks k c) (suc-add m n) ∙ ticks-add m n (tick c)

ticks-count : (n w : ℕ) → ticks n (w, n) ≡ (w, 0)
unfolding ticks tick
ticks-count zero w = refl
ticks-count (suc n) w = ticks-count n w

ticks-round : (w : ℕ) → 2 * w < 2 ^ 32 → ticks (suc (2 * w)) (w, 0) ≡ (2 * w, 0)
unfolding ticks tick
ticks-round w h = ap (λ x. ticks (2 * w) (x, x)) (mod-eq_of_lt h) ∙ ticks-count (2 * w) (2 * w)

ticks-passes : (k w : ℕ) → 2 ^ k * w < 2 ^ 32 → ticks (passes k w) (w, 0) ≡ (2 ^ k * w, 0)
unfolding passes ticks
ticks-passes zero w h = ap (λ x. (x, 0)) (omega arith)
ticks-passes (suc k) w h =
    let same = double_power k w in
    let small : 2 * w < 2 ^ 32 = omega (arith, le-power k (2 * w)) in
    ticks-add (suc (2 * w)) (passes k (2 * w)) (w, 0)
    ∙ ap (ticks (passes k (2 * w))) (ticks-round w small)
    ∙ ticks-passes k (2 * w) (omega arith)
    ∙ ap (λ x. (x, 0)) (sym same)

module _ {Obj Store Dict : Type 0} where
  -- One pass of a list that cannot be connected.
  data Refused : ℕ → List (XContext Obj Store Dict) → List (XContext Obj Store Dict) → Type 0 where
    no_context : {n : ℕ} → Refused n [] []
    one_context :
        {n : ℕ} {xc xc' : XContext Obj Store Dict} {list list' : List (XContext Obj Store Dict)}
        → address xc' ≡ address xc
        → counters xc' ≡ ticks n (counters xc)
        → Refused n list list'
        → Refused n (xc ∷ list) (xc' ∷ list')

  Refused-refl : (list : List (XContext Obj Store Dict)) → Refused 0 list list
  unfolding ticks
  Refused-refl [] = no_context
  Refused-refl (xc ∷ list) = one_context refl refl (Refused-refl list)

  Refused-next :
      (n : ℕ) (a b c : List (XContext Obj Store Dict))
      → Refused 1 a b
      → Refused n b c
      → Refused (suc n) a c
  unfolding ticks
  Refused-next n _ _ _ no_context no_context = no_context
  Refused-next n _ _ _ (one_context e f w) (one_context e' f' w') =
      one_context (e' ∙ e) (f' ∙ ap (ticks n) f) (Refused-next n _ _ _ w w')

  -- What is left after `k` attempts without success in an interval that began as `w`: the same
  -- contexts in their order, each due again, in an interval that has doubled `k` times.
  pub record BackedOff (k w : ℕ) (list : List (XContext Obj Store Dict))
      (o : List (XContext Obj Store Dict) × List (XContext Obj Store Dict)) : Type 0 where
    pub same_addresses : map address o.0 ≡ map address list
    pub due : AllDue (2 ^ k * w) o.0
    pub none_joined : o.1 ≡ []

  Refused-addresses :
      (n : ℕ) (a b : List (XContext Obj Store Dict)) → Refused n a b → map address b ≡ map address a
  Refused-addresses n _ _ no_context = refl
  Refused-addresses n _ _ (one_context e f w) = let rest = Refused-addresses n _ _ w in cc

  Refused-due :
      (k w n : ℕ) (a b : List (XContext Obj Store Dict))
      → n ≡ passes k w
      → 2 ^ k * w < 2 ^ 32
      → Refused n a b
      → AllDue w a
      → AllDue (2 ^ k * w) b
  unfolding AllDue
  Refused-due k w n _ _ same h no_context due = tt
  Refused-due k w n _ _ same h (one_context {xc} e f v) (same_wait, same_remain, due) =
      let c =
        f
        ∙ ap (λ m. ticks m (counters xc)) same
        ∙ ap (λ x. ticks (passes k w) (x, xc.remain_wait_reconn)) same_wait
        ∙ ap (λ y. ticks (passes k w) (w, y)) same_remain
        ∙ ticks-passes k w h in
      (ap (λ p. p.0) c, ap (λ p. p.1) c, Refused-due k w n _ _ same h v due)

module _ {Obj Store Dict : Type 0} (empty : Dict) (store : Store) where
  -- One context without success.
  record Behind (xc : XContext Obj Store Dict) (o : Bool × XContext Obj Store Dict) : Type 0 where
    stays : o.0 ≡ false
    same_address : address o.1 ≡ address xc
    ticked : counters o.1 ≡ tick (counters xc)

  reconnect_one-Behind :
      (a : Attempt Obj Store) (xc : XContext Obj Store Dict)
      → succeeds a ≡ false
      → Behind xc (reconnect_one empty store a xc)
  unfolding reconnect_one reconnect_now context_init reconnect_with attach_no_lock tick
  reconnect_one-Behind a xc h = ground arith

  sort_out-stays :
      (o : Bool × XContext Obj Store Dict)
      (rest : List (XContext Obj Store Dict) × List (XContext Obj Store Dict))
      → o.0 ≡ false
      → sort_out o rest ≡ (o.1 ∷ rest.0, rest.1)
  sort_out-stays (false, xc) rest e = refl
  sort_out-stays (true, xc) rest e = absurd (ground arith)

  -- What a list becomes without success: no context leaves it.
  record Waits (n : ℕ) (list : List (XContext Obj Store Dict))
      (o : List (XContext Obj Store Dict) × List (XContext Obj Store Dict)) : Type 0 where
    refused : Refused n list o.0
    none_joined : o.1 ≡ []

  reconnect_pass-Waits :
      (attempt : XContext Obj Store Dict → Attempt Obj Store)
      (list : List (XContext Obj Store Dict))
      → ((xc : XContext Obj Store Dict) → succeeds (attempt xc) ≡ false)
      → Waits 1 list (reconnect_pass empty store attempt list)
  unfolding reconnect_pass ticks
  reconnect_pass-Waits attempt [] h = record { refused = no_context; none_joined = refl }
  reconnect_pass-Waits attempt (xc ∷ list) h =
      let b = reconnect_one-Behind (attempt xc) xc (h xc) in
      let more = reconnect_pass-Waits attempt list h in
      let rest = reconnect_pass empty store attempt list in
      subst (Waits 1 (xc ∷ list))
        (sym (sort_out-stays (reconnect_one empty store (attempt xc) xc) rest b.stays))
        (record {
          refused = one_context b.same_address b.ticked more.refused;
          none_joined = more.none_joined;
        })

  reconnect_passes-Waits :
      (attempt : ℕ → XContext Obj Store Dict → Attempt Obj Store) (n : ℕ)
      (list : List (XContext Obj Store Dict))
      → ((m : ℕ) (xc : XContext Obj Store Dict) → succeeds (attempt m xc) ≡ false)
      → Waits n list (reconnect_passes empty store attempt n list)
  unfolding reconnect_passes
  reconnect_passes-Waits attempt zero list h = record {
    refused = Refused-refl list;
    none_joined = refl;
  }
  reconnect_passes-Waits attempt (suc n) list h =
      let (waiting, joined) = reconnect_pass empty store (attempt n) list in
      let one = reconnect_pass-Waits (attempt n) list (h n) in
      let more = reconnect_passes-Waits attempt n waiting h in
      record {
        refused = Refused-next n _ _ _ one.refused more.refused;
        none_joined =
            ap (λ x. x ++ (reconnect_passes empty store attempt n waiting).1) one.none_joined
            ∙ more.none_joined;
      }

  -- Take contexts that are all due in an interval of `w` passes, attempts that all fail, and an
  -- interval that doubled `k` times still fits a uint32_t. Then after `k` attempts and the passes of
  -- their intervals, k + 2w(2^k - 1) in all, no context has left the list or changed its place, and
  -- each is due again in an interval of 2^k w passes.
  pub reconnect_passes-BackedOff :
      (attempt : ℕ → XContext Obj Store Dict → Attempt Obj Store) (k w n : ℕ)
      (list : List (XContext Obj Store Dict))
      → ((m : ℕ) (xc : XContext Obj Store Dict) → succeeds (attempt m xc) ≡ false)
      → AllDue w list
      → 2 ^ k * w < 2 ^ 32
      → n + 2 * w ≡ k + 2 ^ suc k * w
      → BackedOff k w list (reconnect_passes empty store attempt n list)
  reconnect_passes-BackedOff attempt k w n list fail due small count =
      let same : n ≡ passes k w = omega (arith, passes-closed k w) in
      let waits = reconnect_passes-Waits attempt n list fail in
      record {
        same_addresses = Refused-addresses n _ _ waits.refused;
        due = Refused-due k w n _ _ same small waits.refused due;
        none_joined = waits.none_joined;
      }
