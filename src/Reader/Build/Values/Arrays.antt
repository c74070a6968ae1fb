-- ===== src/Reader/Build/Values/Arrays.antt =====
-- Arrays: the elements one after the other, and what follows the last one.
use multiplexing_hiredis.Common.{
  ℕ, suc, ◌+◌, ◌^◌, ◌<◌, ◌≤◌, ◌≡◌, refl, sym, ap, ◌∙◌, subst, true, false, Option, none, some, List,
  [], ◌∷◌, ◌++◌, Bytes, length, arith, if◌then◌else◌, length-append, append_assoc,
}
use multiplexing_hiredis.Common.Int.{pos, eq_ℤ, ltb_ℤ, pred_ℤ, suc_ℤ, to_int32_small}
use multiplexing_hiredis.Common.Outcome.{ok}
use multiplexing_hiredis.Common.Decimal.{print_nat, digits_from}
use multiplexing_hiredis.Reader.State.{
  array, redis_ok, ReadTask, Created, created, null_object, fault, ReplyObjectFunctions,
  ReaderState,
}
use multiplexing_hiredis.Reader.Items.{
  fresh_task, move_to_next_task, is_root, enter_array, push_task, process_item,
}
use multiplexing_hiredis.Reader.Build.{
  IsReadable, AllReadable, with_type, parent_task, settled, sibling, completed, built, built_items,
}
use multiplexing_hiredis.Reader.Build.Steps.{at, Text, Text-append}
use multiplexing_hiredis.Reader.Build.Values.{
  Runs, next, Runs-trans, last_item, Reads, array_line, status-Reads, error-Reads, integer-Reads,
  bulk-Reads, nil_bulk-Reads, nil_array-Reads,
}
use multiplexing_hiredis.Resp.{Value, Items, count, no_items, item, encode, encode_items, crlf}

module _ {Obj : Type 0} where
  -- Behind the last element the parent is done too.
  move_past-last :
      (t a : ReadTask Obj) (parents after : List (ReadTask Obj)) (i : ℕ)
      → t.idx ≡ pos i
      → a.type ≡ some array
      → a.elements ≡ pos (suc i)
      → move_to_next_task (a ∷ parents) ≡ ok after
      → move_to_next_task (t ∷ a ∷ parents) ≡ ok after
  unfolding move_to_next_task
  move_past-last t a parents after i e e' e'' m =
      let last : eq_ℤ t.idx (pred_ℤ a.elements) ≡ true = rw (e, e'') (ground arith) in
      rw (move_to_next_task, e', last) m

  -- Behind another element its sibling is next.
  move_to-sibling :
      (t a : ReadTask Obj) (parents : List (ReadTask Obj)) (i n : ℕ)
      → t.idx ≡ pos i
      → a.type ≡ some array
      → a.elements ≡ pos n
      → suc i < n
      → move_to_next_task (t ∷ a ∷ parents) ≡ ok (sibling t ∷ a ∷ parents)
  unfolding move_to_next_task
  move_to-sibling t a parents i n e e' e'' lt =
      let other : eq_ℤ t.idx (pred_ℤ a.elements) ≡ false = rw (e, e'') (ground arith) in
      let below : ltb_ℤ t.idx a.elements ≡ true = rw (e, e'') (ground arith) in
      rw (move_to_next_task, e', other, below) refl

  settled_idx : (v : Value) (cur : ReadTask Obj) (obj : Obj) → (settled v cur obj).idx ≡ cur.idx
  settled_idx (Value.status s) cur obj = refl
  settled_idx (Value.error s) cur obj = refl
  settled_idx (Value.integer n) cur obj = refl
  settled_idx (Value.bulk s) cur obj = refl
  settled_idx Value.nil_bulk cur obj = refl
  settled_idx Value.nil_array cur obj = refl
  settled_idx (Value.array no_items) cur obj = refl
  settled_idx (Value.array (item v vs)) cur obj = refl

module _ {Obj Store : Type 0} (fns : ReplyObjectFunctions Obj Store) where
  -- The object of the first of several elements.
  record FirstMade (v : Value) (vs : Items) (cur : ReadTask Obj) (parents : List (ReadTask Obj))
      (store store' : Store) : Type 0 where
    obj : Obj
    store₁ : Store
    first : built fns v cur parents store ≡ created obj store₁
    others : built_items fns vs (sibling (settled v cur obj)) parents store₁ ≡ some store'

  first_made :
      (v : Value) (vs : Items) (cur : ReadTask Obj) (parents : List (ReadTask Obj))
      (store store' : Store)
      → built_items fns (item v vs) cur parents store ≡ some store'
      → FirstMade v vs cur parents store store'
  unfolding built_items
  first_made v vs cur parents store store' h = go (built fns v cur parents store) refl h
    where
      go :
          (c : Created Obj Store)
          → built fns v cur parents store ≡ c
          → elim c as (λ _. Option Store) [
            | created obj store₁ ↦ built_items fns vs (sibling (settled v cur obj)) parents store₁
            | null_object _ ↦ none
            | fault ↦ none
          ]
            ≡ some store'
          → FirstMade v vs cur parents store store'
      go (created obj store₁) e h' = record { obj = obj; store₁ = store₁; first = e; others = h' }
      go (null_object _) e h' = ground arith
      go fault e h' = ground arith

  -- The object of an array and the store behind its elements.
  record ArrayMade (v : Value) (vs : Items) (cur : ReadTask Obj) (parents : List (ReadTask Obj))
      (store store' : Store) (obj : Obj) : Type 0 where
    store₁ : Store
    own :
        fns.create_array (with_type array cur ∷ parents) (pos (suc (count vs))) store
        ≡ created obj store₁
    elements :
        built_items fns
          (item v vs)
          (fresh_task (pos 0))
          (parent_task cur obj (suc (count vs)) ∷ parents)
          store₁
        ≡ some store'

  array_made :
      (v : Value) (vs : Items) (cur : ReadTask Obj) (parents : List (ReadTask Obj))
      (store store' : Store) (obj : Obj)
      → built fns (Value.array (item v vs)) cur parents store ≡ created obj store'
      → ArrayMade v vs cur parents store store' obj
  unfolding built
  array_made v vs cur parents store store' obj h =
      go (fns.create_array (with_type array cur ∷ parents) (pos (suc (count vs))) store) refl h
    where
      inner :
          (o : Obj) (store₁ : Store) (m : Option Store)
          → fns.create_array (with_type array cur ∷ parents) (pos (suc (count vs))) store
            ≡ created o store₁
          → built_items fns
              (item v vs)
              (fresh_task (pos 0))
              (parent_task cur o (suc (count vs)) ∷ parents)
              store₁
            ≡ m
          → completed fns o m ≡ created obj store'
          → ArrayMade v vs cur parents store store' obj
      inner o store₁ none e e' h' = ground arith
      inner o store₁ (some store₂) e e' h' =
          let same : o ≡ obj = ground arith in
          let same' : store₂ ≡ store' = ground arith in
          record {
            store₁ = store₁;
            own = e ∙ ap (λ x. created x store₁) same;
            elements =
                subst
                  (λ x.
                    built_items fns (item v vs) (fresh_task (pos 0))
                      (parent_task cur x (suc (count vs)) ∷ parents) store₁
                    ≡ some store')
                  same (e' ∙ ap some same');
          }

      go :
          (c : Created Obj Store)
          → fns.create_array (with_type array cur ∷ parents) (pos (suc (count vs))) store ≡ c
          → elim c as (λ _. Created Obj Store) [
            | created o store₁ ↦ completed fns o (
                built_items fns
                  (item v vs)
                  (fresh_task (pos 0))
                  (parent_task cur o (suc (count vs)) ∷ parents)
                  store₁)
            | null_object _ ↦ fault
            | fault ↦ fault
          ]
            ≡ created obj store'
          → ArrayMade v vs cur parents store store' obj
      go (created o store₁) e h' =
          inner o store₁
            (built_items fns (item v vs) (fresh_task (pos 0))
              (parent_task cur o (suc (count vs)) ∷ parents) store₁)
            e refl h'
      go (null_object _) e h' = ground arith
      go fault e h' = ground arith

  empty-Reads :
      (r : ReaderState Obj Store) (p : ℕ) (rest : Bytes) (cur : ReadTask Obj)
      (parents : List (ReadTask Obj))
      → length parents ≤ 7
      → Text r p (encode (Value.array no_items) ++ rest)
      → cur.type ≡ none
      → Reads fns r p (Value.array no_items) rest cur parents
  unfolding Reads encode built enter_array print_nat digits_from
  empty-Reads r p rest cur parents shallow w e reply store store' obj after b m =
      let tasks = with_type array cur ∷ parents in
      last_item fns r p (p + 1 + (1 + 2)) (p + 4) tasks after reply store store' obj
        (created obj store') (at r p (cur ∷ parents) reply store)
        (array_line fns r p 0 [] rest cur parents reply store shallow (omega arith) w e
          ∙ ap (λ c. enter_array fns (pos 0) c (at r (p + 1 + (1 + 2)) tasks reply store)) b)
        refl m (omega arith)

  -- The object of an array with elements was made: its first element is the next task.
  entered :
      (r : ReaderState Obj Store) (p n : ℕ) (body rest : Bytes) (cur : ReadTask Obj)
      (parents : List (ReadTask Obj)) (reply : Option Obj) (store store₁ : Store) (obj : Obj)
      → length parents ≤ 7
      → suc n < 2 ^ 31
      → Text r p (42 ∷ print_nat (suc n) ++ (crlf ++ (body ++ rest)))
      → cur.type ≡ none
      → fns.create_array (with_type array cur ∷ parents) (pos (suc n)) store ≡ created obj store₁
      → process_item fns (at r p (cur ∷ parents) reply store)
        ≡ ok (
          redis_ok,
          at r
              (p + 1 + (length (print_nat (suc n)) + 2))
              (fresh_task (pos 0) ∷ parent_task cur obj (suc n) ∷ parents)
              (if is_root (cur ∷ parents) then some obj else reply)
              store₁,
        )
  unfolding enter_array push_task
  entered r p n body rest cur parents reply store store₁ obj shallow small w e made =
      let q = p + 1 + (length (print_nat (suc n)) + 2) in
      let tasks = with_type array cur ∷ parents in
      array_line fns r p (suc n) body rest cur parents reply store shallow small w e
      ∙ ap (λ c. enter_array fns (pos (suc n)) c (at r q tasks reply store)) made
      ∙ pushed q tasks refl
    where
      pushed :
          (q : ℕ) (tasks : List (ReadTask Obj))
          → tasks ≡ with_type array cur ∷ parents
          → enter_array fns
              (pos (suc n))
              (created obj store₁)
              (at r q (with_type array cur ∷ parents) reply store)
            ≡ ok (
              redis_ok,
              at r q
                  (fresh_task (pos 0) ∷ parent_task cur obj (suc n) ∷ parents)
                  (if is_root (cur ∷ parents) then some obj else reply)
                  store₁,
            )
      pushed q tasks h =
          let some_elements : ltb_ℤ (pos 0) (pos (suc n)) ≡ true = ground arith in
          rw (enter_array, some_elements)
            (ap
              (λ z. ok (
                redis_ok,
                at r q
                    (fresh_task (pos 0)
                      ∷ record cur { type = some array; elements = z; obj = some obj }
                      ∷ parents)
                    (if is_root (cur ∷ parents) then some obj else reply) store₁,
              ))
              (to_int32_small (suc n) small))

  -- What the reader does with elements, from the one at index `i` on.
  pub ReadsItems : ReaderState Obj Store → ℕ → Items → Bytes → List (ReadTask Obj) → Type 0
  ReadsItems r p vs rest parents =
      (cur a : ReadTask Obj) (i n : ℕ) (reply : Option Obj) (store store' : Store)
      (after : List (ReadTask Obj))
      → cur.type ≡ none
      → cur.idx ≡ pos i
      → a.type ≡ some array
      → a.elements ≡ pos n
      → i + count vs ≡ n
      → 0 < count vs
      → built_items fns vs cur (a ∷ parents) store ≡ some store'
      → move_to_next_task (a ∷ parents) ≡ ok after
      → Runs fns (at r p (cur ∷ a ∷ parents) reply store)
          (at r (p + length (encode_items vs)) after reply store')

  array-Reads :
      (r : ReaderState Obj Store) (p : ℕ) (v : Value) (vs : Items) (rest : Bytes)
      (cur : ReadTask Obj) (parents : List (ReadTask Obj))
      → length parents ≤ 7
      → count (item v vs) < 2 ^ 31
      → Text r p (encode (Value.array (item v vs)) ++ rest)
      → cur.type ≡ none
      → ((q : ℕ)
          → Text r q (encode_items (item v vs) ++ rest)
          → ReadsItems r q (item v vs) rest parents)
      → Reads fns r p (Value.array (item v vs)) rest cur parents
  unfolding Reads encode ReadsItems
  array-Reads r p v vs rest cur parents shallow small w e inner reply store store' obj after b m =
      let made = array_made v vs cur parents store store' obj b in
      let n = count vs in
      let line = print_nat (suc n) in
      let body = encode_items (item v vs) in
      let q = p + 1 + (length line + 2) in
      let same : (42 ∷ line ++ (crlf ++ body)) ++ rest ≡ 42 ∷ line ++ (crlf ++ (body ++ rest)) =
        ap (λ x. 42 ∷ x) (append_assoc line (crlf ++ body) rest) in
      let w' : Text r p (42 ∷ line ++ (crlf ++ (body ++ rest))) = subst (λ x. Text r p x) same w in
      let head = 42 ∷ line ++ crlf in
      let size : p + length head ≡ q = omega (arith, length-append line crlf) in
      let behind : Text r q (body ++ rest) =
        subst (λ k. Text r k (body ++ rest)) size
          (Text-append p head (body ++ rest)
            (subst (λ x. Text r p (42 ∷ x)) (sym (append_assoc line crlf (body ++ rest))) w')) in
      let reply' = if is_root (cur ∷ parents) then some obj else reply in
      let end : q + length body ≡ p + length (encode (Value.array (item v vs))) =
        omega (arith, length-append line (crlf ++ body)) in
      next
        (entered r p n body rest cur parents reply store made.store₁ obj shallow small w' e
          made.own)
        (subst
          (λ k.
            Runs fns
              (at r q (fresh_task (pos 0) ∷ parent_task cur obj (suc n) ∷ parents) reply'
                made.store₁)
              (at r k after reply' store'))
          end
          (inner q behind (fresh_task (pos 0)) (parent_task cur obj (suc n)) 0 (suc n) reply'
            made.store₁ store' after refl refl refl refl (omega arith) (omega arith) made.elements
            m))

  -- An element is not the root, so the reply stays.
  below_root :
      (r : ReaderState Obj Store) (q : ℕ) (cur a : ReadTask Obj)
      (parents after : List (ReadTask Obj)) (reply : Option Obj) (store' : Store) (obj : Obj)
      (s : ReaderState Obj Store)
      → Runs fns s (at r q after (if is_root (cur ∷ a ∷ parents) then some obj else reply) store')
      → Runs fns s (at r q after reply store')
  below_root r q cur a parents after reply store' obj s runs =
      let inner : is_root (cur ∷ a ∷ parents) ≡ false = ground arith in
      subst (λ x. Runs fns s (at r q after (if x then some obj else reply) store')) inner runs

  -- The last element, and the parent with it.
  last-Reads :
      (r : ReaderState Obj Store) (p : ℕ) (v : Value) (rest : Bytes) (parents : List (ReadTask Obj))
      → ((cur a : ReadTask Obj) → cur.type ≡ none → Reads fns r p v rest cur (a ∷ parents))
      → ReadsItems r p (item v no_items) rest parents
  unfolding Reads ReadsItems encode_items built_items
  last-Reads r p v rest parents one cur a i n reply store store' after e e' ta ea sum pos_count b
        m =
      let made = first_made v no_items cur (a ∷ parents) store store' b in
      let end : p + length (encode v) ≡ p + length (encode_items (item v no_items)) =
        omega (arith, length-append (encode v) []) in
      let last : a.elements ≡ pos (suc i) = ea ∙ ap pos (omega arith) in
      subst (λ k. Runs fns (at r p (cur ∷ a ∷ parents) reply store) (at r k after reply store')) end
        (below_root r (p + length (encode v)) cur a parents after reply store' made.obj
          (at r p (cur ∷ a ∷ parents) reply store)
          (one cur a e reply store store' made.obj after
            (made.first ∙ ap (λ x. created made.obj x) (only_store made.others))
            (move_past-last (settled v cur made.obj) a parents after i
              (settled_idx v cur made.obj ∙ e') ta last m)))
    where
      only_store : {x y : Store} → ◌≡◌ {A = Option Store} (some x) (some y) → x ≡ y
      only_store h = ground arith

  -- An element and those behind it.
  more-Reads :
      (r : ReaderState Obj Store) (p : ℕ) (v v' : Value) (vs : Items) (rest : Bytes)
      (parents : List (ReadTask Obj))
      → ((cur a : ReadTask Obj)
          → cur.type ≡ none
          → Reads fns r p v (encode_items (item v' vs) ++ rest) cur (a ∷ parents))
      → ReadsItems r (p + length (encode v)) (item v' vs) rest parents
      → ReadsItems r p (item v (item v' vs)) rest parents
  unfolding Reads ReadsItems encode_items
  more-Reads r p v v' vs rest parents one others cur a i n reply store store' after e e' ta ea sum
        pos_count b m =
      let made = first_made v (item v' vs) cur (a ∷ parents) store store' b in
      let idx = settled_idx v cur made.obj ∙ e' in
      let t = sibling (settled v cur made.obj) in
      let q = p + length (encode v) in
      let end : q + length (encode_items (item v' vs))
          ≡ p + length (encode_items (item v (item v' vs))) =
        omega (arith, length-append (encode v) (encode_items (item v' vs))) in
      subst (λ k. Runs fns (at r p (cur ∷ a ∷ parents) reply store) (at r k after reply store')) end
        (Runs-trans fns
          (below_root r q cur a parents (t ∷ a ∷ parents) reply made.store₁ made.obj
            (at r p (cur ∷ a ∷ parents) reply store)
            (one cur a e reply store made.store₁ made.obj (t ∷ a ∷ parents) made.first
              (move_to-sibling (settled v cur made.obj) a parents i n idx ta ea (omega arith))))
          (others t a (i + 1) n reply made.store₁ store' after refl (ap suc_ℤ idx) ta ea
            (omega arith) (omega arith) made.others m))

  -- The text of the first of several elements.
  split :
      (r : ReaderState Obj Store) (p : ℕ) (v : Value) (vs : Items) (rest : Bytes)
      → Text r p (encode_items (item v vs) ++ rest)
      → Text r p (encode v ++ (encode_items vs ++ rest))
  unfolding encode_items
  split r p v vs rest w = subst (λ x. Text r p x) (append_assoc (encode v) (encode_items vs) rest) w

  -- Every readable value is read, by its items and those of its elements.
  mutual
    unfolding IsReadable AllReadable encode_items ReadsItems

    pub reads :
        (v : Value) (r : ReaderState Obj Store) (p : ℕ) (rest : Bytes) (cur : ReadTask Obj)
        (parents : List (ReadTask Obj))
        → IsReadable (length parents) v
        → Text r p (encode v ++ rest)
        → cur.type ≡ none
        → Reads fns r p v rest cur parents
    reads (Value.status s) r p rest cur parents n w e =
        status-Reads fns r p s rest cur parents n w e
    reads (Value.error s) r p rest cur parents n w e = error-Reads fns r p s rest cur parents n w e
    reads (Value.integer z) r p rest cur parents n w e =
        integer-Reads fns r p z rest cur parents n w e
    reads (Value.bulk s) r p rest cur parents n w e = bulk-Reads fns r p s rest cur parents w e
    reads Value.nil_bulk r p rest cur parents n w e = nil_bulk-Reads fns r p rest cur parents w e
    reads Value.nil_array r p rest cur parents n w e =
        nil_array-Reads fns r p rest cur parents n w e
    reads (Value.array no_items) r p rest cur parents (shallow, small, all) w e =
        empty-Reads r p rest cur parents shallow w e
    reads (Value.array (item v vs)) r p rest cur parents (shallow, small, all) w e =
        array-Reads r p v vs rest cur parents shallow small w e
          (λ q w'. reads_items (item v vs) r q rest parents all w')

    pub reads_items :
        (vs : Items) (r : ReaderState Obj Store) (p : ℕ) (rest : Bytes)
        (parents : List (ReadTask Obj))
        → AllReadable (suc (length parents)) vs
        → Text r p (encode_items vs ++ rest)
        → ReadsItems r p vs rest parents
    reads_items no_items r p rest parents all w =
        λ cur a i n reply store store' after e e' ta ea sum some_items. absurd (omega arith)
    reads_items (item v no_items) r p rest parents (one, all) w =
        last-Reads r p v rest parents
          (λ cur a e. reads v r p rest cur (a ∷ parents) one (split r p v no_items rest w) e)
    reads_items (item v (item v' vs)) r p rest parents (one, all) w =
        more-Reads r p v v' vs rest parents
          (λ cur a e.
            reads v r p (encode_items (item v' vs) ++ rest) cur (a ∷ parents) one
              (split r p v (item v' vs) rest w) e)
          (reads_items (item v' vs) r (p + length (encode v)) rest parents all (
            Text-append p (encode v) (encode_items (item v' vs) ++ rest)
              (split r p v (item v' vs) rest w)))
