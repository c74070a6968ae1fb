-- ===== src/Multiplex/Callbacks/Down.antt =====
-- What disconnectedCallback does to the queue and to the list of reconnectDis.
use multiplexing_hiredis.Common.{
  ℕ, zero, suc, ◌≡◌, refl, sym, ◌∙◌, inl, inr, ◌-◌, ◌==◌, leb, Bool-cases, true, false, Option,
  some, List, [], ◌∷◌, ◌++◌, if◌then◌else◌, get_elem?, set, arith,
}
use multiplexing_hiredis.Reader.State.{redis_err}
use multiplexing_hiredis.Multiplex.Life.{CmdInfo, Cell, live, freed}
use multiplexing_hiredis.Multiplex.State.{disconnecting, Request, clear_queue}
use multiplexing_hiredis.Multiplex.Callbacks.{is_listed, list_once, Going, disconnected_callback}

-- No number twice on a list.
abbrev pub IsDistinct : List ℕ → Type 0
IsDistinct [] = Unit {0}
IsDistinct (a ∷ list) = (is_listed a list ≡ false) × IsDistinct list

-- The cmdInfo without the queue's reference, freed if there is no other.
abbrev pub released_info : {Obj : Type 0} → CmdInfo Obj → Cell Obj
released_info ci =
    if leb ci.reference 1 then freed else live (record ci { reference = ci.reference - 1 })

not_listed :
    (i x : ℕ) (list : List ℕ)
    → is_listed i (x ∷ list) ≡ false
    → ((x == i) ≡ false) × ((i == x) ≡ false) × (is_listed i list ≡ false)
unfolding is_listed
not_listed i x list h = ground arith

module _ {Obj : Type 0} where
  -- The commands on a queue have cmdInfos that are not freed.
  abbrev pub AllLive : List ℕ → List (Request Obj) → Type 0
  AllLive [] requests = Unit {0}
  AllLive (a ∷ list) requests =
      ((req : Request Obj) × (ci : CmdInfo Obj) × (get_elem? requests a ≡ some req)
        × (req.info ≡ live ci))
      × AllLive list requests

  -- The queue's reference of each is given up once.
  abbrev pub AllReleased : List ℕ → List (Request Obj) → List (Request Obj) → Type 0
  AllReleased [] requests after = Unit {0}
  AllReleased (a ∷ list) requests after =
      ((req : Request Obj) × (ci : CmdInfo Obj) × (get_elem? requests a ≡ some req)
        × (req.info ≡ live ci)
        × (get_elem? after a ≡ some (record req { info = released_info ci })))
      × AllReleased list requests after

  set-same :
      (requests : List (Request Obj)) (a : ℕ) (req new : Request Obj)
      → get_elem? requests a ≡ some req
      → get_elem? (set requests a new) a ≡ some new
  set-same [] a req new h = ground arith
  set-same (x ∷ requests) zero req new h = refl
  set-same (x ∷ requests) (suc a) req new h = set-same requests a req new h

  set_other :
      (requests : List (Request Obj)) (a i : ℕ) (new : Request Obj)
      → (a == i) ≡ false
      → get_elem? (set requests a new) i ≡ get_elem? requests i
  set_other [] a i new h = refl
  set_other (x ∷ requests) zero zero new h = ground arith
  set_other (x ∷ requests) zero (suc i) new h = refl
  set_other (x ∷ requests) (suc a) zero new h = refl
  set_other (x ∷ requests) (suc a) (suc i) new h = set_other requests a i new (ground arith)

  AllLive-set :
      (list : List ℕ) (requests : List (Request Obj)) (a : ℕ) (new : Request Obj)
      → is_listed a list ≡ false
      → AllLive list requests
      → AllLive list (set requests a new)
  AllLive-set [] requests a new h l = tt
  AllLive-set (x ∷ list) requests a new h ((req, ci, g, i), l) =
      let (_, apart, off) = not_listed a x list h in
      ((req, ci, set_other requests a x new apart ∙ g, i), AllLive-set list requests a new off l)

  AllReleased-set :
      (list : List ℕ) (requests after : List (Request Obj)) (a : ℕ) (new : Request Obj)
      → is_listed a list ≡ false
      → AllReleased list (set requests a new) after
      → AllReleased list requests after
  AllReleased-set [] requests after a new h l = tt
  AllReleased-set (x ∷ list) requests after a new h ((req, ci, g, i, k), l) =
      let (_, apart, off) = not_listed a x list h in
      (
        (req, ci, sym (set_other requests a x new apart) ∙ g, i, k),
        AllReleased-set list requests after a new off l,
      )

  -- The queue is emptied; other commands are as they were.
  clear_queue-AllReleased :
      (list : List ℕ) (requests : List (Request Obj))
      → IsDistinct list
      → AllLive list requests
      → (after : List (Request Obj)) × (clear_queue list requests ≡ some after)
        × AllReleased list requests after
        × ((i : ℕ) → is_listed i list ≡ false → get_elem? after i ≡ get_elem? requests i)
  unfolding clear_queue
  clear_queue-AllReleased [] requests d l = (requests, refl, tt, λ i h. refl)
  clear_queue-AllReleased (a ∷ list) requests (n, d) ((req, ci, g, e), l) =
      let new : Request Obj = record req { info = released_info ci } in
      let (after, run, released, other) =
        clear_queue-AllReleased list (set requests a new) d (AllLive-set list requests a new n l) in
      (
        after,
        rw (clear_queue, g, e) run,
        (
          (req, ci, g, e, other a n ∙ set-same requests a req new g),
          AllReleased-set list requests after a new n released,
        ),
        λ i h.
            let (apart, _, off) = not_listed i a list h in
            other i off ∙ set_other requests a i new apart,
      )

is_listed-end :
    (a x : ℕ) (list : List ℕ) → is_listed x list ≡ true → is_listed x (list ++ (a ∷ [])) ≡ true
unfolding is_listed
is_listed-end a x [] h = ground arith
is_listed-end a x (y ∷ list) h = ground (arith, is_listed-end a x list)

is_listed-last : (a : ℕ) (list : List ℕ) → is_listed a (list ++ (a ∷ [])) ≡ true
unfolding is_listed
is_listed-last a [] = ground arith
is_listed-last a (y ∷ list) = ground (arith, is_listed-last a list)

off_end :
    (a x : ℕ) (list : List ℕ)
    → is_listed x list ≡ false
    → (a == x) ≡ false
    → is_listed x (list ++ (a ∷ [])) ≡ false
unfolding is_listed
off_end a x [] h e = ground arith
off_end a x (y ∷ list) h e = ground (arith, off_end a x list)

IsDistinct-end :
    (a : ℕ) (list : List ℕ)
    → IsDistinct list
    → is_listed a list ≡ false
    → IsDistinct (list ++ (a ∷ []))
unfolding is_listed
IsDistinct-end a [] d h = (refl, tt)
IsDistinct-end a (x ∷ list) (n, d) h =
    let (_, apart, off) = not_listed a x list h in
    (off_end a x list n apart, IsDistinct-end a list d off)

list_once-IsDistinct :
    (a : ℕ) (list : List ℕ)
    → IsDistinct list
    → IsDistinct (list_once a list) × (is_listed a (list_once a list) ≡ true)
unfolding list_once
list_once-IsDistinct a list d = elim (Bool-cases (is_listed a list)) [
  | inl e ↦ rw (list_once, e) (d, e)
  | inr e ↦ rw (list_once, e) (IsDistinct-end a list d e, is_listed-last a list)
]

module _ {Obj Store Dict : Type 0} where
  -- The callback has ended, and what it leaves behind.
  pub record WentDown (a : ℕ) (d : Going Obj Store Dict) (o : Option (Going Obj Store Dict))
      : Type 0 where
    pub after : Going Obj Store Dict
    pub returns : o ≡ some after
    pub released : AllReleased d.ac.cmd_list d.xc.requests after.xc.requests
    pub others :
        (i : ℕ)
        → is_listed i d.ac.cmd_list ≡ false
        → get_elem? after.xc.requests i ≡ get_elem? d.xc.requests i
    pub no_queue : after.ac.cmd_list ≡ []
    pub down : after.xc.status ≡ disconnecting
    pub once : IsDistinct after.reconn_list
    pub waits : d.ac.freed ≡ false → is_listed a after.reconn_list ≡ true
    pub kept : d.ac.freed ≡ true → after.reconn_list ≡ d.reconn_list

  -- A connection goes down with an error, while the cmdInfos of the commands on its queue are not
  -- freed, none of them is on it twice, and no connection is twice on the list of reconnectDis. Then
  -- disconnectedCallback ends without a use of freed memory: the queue's reference to each of its
  -- commands is given up once, other commands are as they were, the queue is empty and the
  -- connection is marked. No connection is twice on the list; this one is on it, unless its context
  -- waits to be freed, and then the list is as it was.
  pub disconnected_callback-WentDown :
      (a : ℕ) (d : Going Obj Store Dict)
      → IsDistinct d.ac.cmd_list
      → AllLive d.ac.cmd_list d.xc.requests
      → IsDistinct d.reconn_list
      → WentDown a d (disconnected_callback redis_err a d)
  unfolding disconnected_callback
  disconnected_callback-WentDown a d distinct l once =
      let (after, run, released, other) =
        clear_queue-AllReleased d.ac.cmd_list d.xc.requests distinct l in
      let (listed_once, listed) = list_once-IsDistinct a d.reconn_list once in
      let gone : List ℕ → Going Obj Store Dict = λ list. record {
        ac = record (d.ac) { cmd_list = [] };
        xc = record (d.xc) { requests = after; status = disconnecting };
        reconn_list = list;
      } in
      elim (Bool-cases d.ac.freed) [
        | inl e ↦ record {
          after = gone d.reconn_list;
          returns = rw (disconnected_callback, run, e) refl;
          released = released;
          others = other;
          no_queue = refl;
          down = refl;
          once = once;
          waits = λ f. cc;
          kept = λ f. refl;
        }
        | inr e ↦ record {
          after = gone (list_once a d.reconn_list);
          returns = rw (disconnected_callback, run, e) refl;
          released = released;
          others = other;
          no_queue = refl;
          down = refl;
          once = listed_once;
          waits = λ f. listed;
          kept = λ f. cc;
        }
      ]
