-- ===== src/Multiplex/Free/Contexts.antt =====
-- The contexts on the list are freed, and those who wait for that are told.
use multiplexing_hiredis.Common.{
  ℕ, ◌<◌, ◌≡◌, refl, sym, ap, ◌∙◌, subst, Bool, true, false, Option, some, List, [], ◌∷◌, ◌++◌,
  ◌&&◌, if◌then◌else◌, length, append_assoc,
}
use multiplexing_hiredis.Common.Outcome.{Outcome, ok, ◌>>=◌}
use multiplexing_hiredis.Async.State.{
  AsyncContext, Callback, DictFunctions, Event, cleanup, disconnect_callback, signal_free,
  free_context, set_freeing,
}
use multiplexing_hiredis.Async.Teardown.{async_free, async_free_now}
use multiplexing_hiredis.Async.Laws.{runs, parting_status, parting, Freed, async_free_now-Freed}
use multiplexing_hiredis.Multiplex.State.{XContext}
use multiplexing_hiredis.Multiplex.Free.{
  Client, hand_over, remove_first, x_free, free_contexts, free_async_context_deal,
}

module _ {Obj Store Dict : Type 0} where
  -- A context outside its callbacks, whose dictionaries are there, with fuel for its callbacks.
  pub record Freeable (fuel : ℕ) (ac : AsyncContext Obj Store Dict) : Type 0 where
    pub outside : ac.c.flags.in_callback ≡ false
    pub chans : Dict
    pub has_channels : ac.channels ≡ some chans
    pub pats : Dict
    pub has_patterns : ac.patterns ≡ some pats
    pub replies_fuel : length ac.replies < fuel
    pub invalid_fuel : length ac.invalid < fuel

  unfoldable pub AllFreeable : ℕ → List (AsyncContext Obj Store Dict) → Type 0
  AllFreeable fuel [] = Unit
  AllFreeable fuel (ac ∷ list) = Freeable fuel ac × AllFreeable fuel list

  abbrev value_or :
      AsyncContext Obj Store Dict
      → Outcome (AsyncContext Obj Store Dict)
      → AsyncContext Obj Store Dict
  value_or ac (ok ac') = ac'
  value_or ac _ = ac

  -- The last events of a context that is freed for its user.
  parting-tells :
      (ac : AsyncContext Obj Store Dict)
      → ac.freed ≡ true
      → (middle : List (Event Obj)) × (parting ac ≡ middle ++ (signal_free ∷ free_context ∷ []))
  unfolding parting
  parting-tells ac f = (
    cleanup
        ∷ (if ac.on_disconnect && ac.c.flags.connected
            then disconnect_callback (parting_status ac) ∷ []
            else []),
    rw f refl,
  )

module _ {Obj Store Dict : Type 0} (dict : DictFunctions Dict)
    (user : Callback → Option Obj → AsyncContext Obj Store Dict → AsyncContext Obj Store Dict)
    (quiet : (cb : Callback) (o : Option Obj) (ac : AsyncContext Obj Store Dict)
      → user cb o ac ≡ ac) where
  -- A context that was freed: its callbacks were run, and nothing waits in it.
  pub record Gone (ac gone : AsyncContext Obj Store Dict) : Type 0 where
    pub chans : Dict
    pub pats : Dict
    pub freed_now : Freed dict user quiet chans pats (set_freeing ac) (ok gone)

  -- Each context was freed, in the order of the list.
  pub data AllGone
      : List (AsyncContext Obj Store Dict) → List (AsyncContext Obj Store Dict) → Type 0 where
    none_gone : AllGone [] []
    one_gone :
        {ac gone : AsyncContext Obj Store Dict} {list rest : List (AsyncContext Obj Store Dict)}
        → Gone ac gone
        → AllGone list rest
        → AllGone (ac ∷ list) (gone ∷ rest)

  -- The result of a loop that frees.
  record AllFreed (list : List (AsyncContext Obj Store Dict))
      (o : Outcome (List (AsyncContext Obj Store Dict))) : Type 0 where
    gone : List (AsyncContext Obj Store Dict)
    returns : o ≡ ok gone
    all_gone : AllGone list gone

  async_free-outside :
      (fuel : ℕ) (ac : AsyncContext Obj Store Dict)
      → ac.c.flags.in_callback ≡ false
      → async_free dict user fuel ac ≡ async_free_now dict user fuel (set_freeing ac)
  unfolding async_free
  async_free-outside fuel ac h = rw (h, async_free) refl

  free_contexts-AllFreed :
      (fuel : ℕ) (list : List (AsyncContext Obj Store Dict))
      → AllFreeable fuel list
      → AllFreed list (free_contexts dict user fuel list)
  unfolding free_contexts AllFreeable
  free_contexts-AllFreed fuel [] h = record { gone = []; returns = refl; all_gone = none_gone }
  free_contexts-AllFreed fuel (ac ∷ list) (f, h) =
      let d =
        async_free_now-Freed dict user quiet fuel f.chans f.pats (set_freeing ac) f.replies_fuel
          f.invalid_fuel f.has_channels f.has_patterns in
      let more = free_contexts-AllFreed fuel list h in
      record {
        gone = d.freed_context ∷ more.gone;
        returns =
            ap (λ o. o >>= λ gone. free_contexts dict user fuel list >>= λ rest. ok (gone ∷ rest))
              (async_free-outside fuel ac f.outside ∙ d.returns)
            ∙ ap (λ o. o >>= λ rest. ok (d.freed_context ∷ rest)) more.returns;
        all_gone =
            one_gone
              (record {
                chans = f.chans;
                pats = f.pats;
                freed_now = record {
                  freed_context = d.freed_context;
                  returns = refl;
                  no_replies = d.no_replies;
                  no_invalid = d.no_invalid;
                  no_channels = d.no_channels;
                  no_patterns = d.no_patterns;
                  all_events = d.all_events;
                };
              })
              more.all_gone;
      }

  AllFreeable-append :
      (fuel : ℕ) (a b : List (AsyncContext Obj Store Dict))
      → AllFreeable fuel a
      → AllFreeable fuel b
      → AllFreeable fuel (a ++ b)
  unfolding AllFreeable
  AllFreeable-append fuel [] b h h' = h'
  AllFreeable-append fuel (ac ∷ a) b (f, h) h' = (f, AllFreeable-append fuel a b h h')

  -- The last context of a list is the last that is freed.
  record Last (ac : AsyncContext Obj Store Dict) (gone : List (AsyncContext Obj Store Dict))
      : Type 0 where
    front : List (AsyncContext Obj Store Dict)
    last : AsyncContext Obj Store Dict
    split : gone ≡ front ++ (last ∷ [])
    freed_last : Gone ac last

  AllGone-Last :
      (list gone : List (AsyncContext Obj Store Dict)) (ac : AsyncContext Obj Store Dict)
      → AllGone (list ++ (ac ∷ [])) gone
      → Last ac gone
  AllGone-Last [] _ ac (one_gone {gone} g none_gone) = record {
    front = [];
    last = gone;
    split = refl;
    freed_last = g;
  }
  AllGone-Last (x ∷ list) _ ac (one_gone {gone} g h) =
      let l = AllGone-Last list _ ac h in
      record {
        front = gone ∷ l.front;
        last = l.last;
        split = ap (λ xs. gone ∷ xs) l.split;
        freed_last = l.freed_last;
      }

  -- A context that was freed for its user: the last events are the signal and the release of memory.
  pub record Signalled (client : Client Obj Store Dict) (ac : AsyncContext Obj Store Dict)
      (o : Outcome (List (AsyncContext Obj Store Dict) × Client Obj Store Dict)) : Type 0 where
    pub front : List (AsyncContext Obj Store Dict)
    pub last : AsyncContext Obj Store Dict
    pub left : Client Obj Store Dict
    pub returns : o ≡ ok (front ++ (last ∷ []), left)
    pub all_gone :
        AllGone (client.free_ac_list ++ (record ac { freed = true } ∷ [])) (front ++ (last ∷ []))
    pub none_left : left.free_ac_list ≡ []
    pub before : List (Event Obj)
    pub tells : last.trace ≡ before ++ (signal_free ∷ free_context ∷ [])

  Gone-tells :
      (ac last : AsyncContext Obj Store Dict)
      → ac.freed ≡ true
      → Gone ac last
      → (before : List (Event Obj)) × (last.trace ≡ before ++ (signal_free ∷ free_context ∷ []))
  Gone-tells ac last f g =
      let w = g.freed_now in
      let made : last ≡ w.freed_context = ap (λ o. value_or last o) w.returns in
      let (middle, e) = parting-tells (set_freeing ac) f in
      let front =
        (((ac.trace ++ runs ac.replies) ++ runs ac.invalid) ++ runs (dict.values g.chans))
        ++ runs (dict.values g.pats) in
      (
        front ++ middle,
        ap (λ a. a.trace) made
            ∙ w.all_events
            ∙ ap (λ l. front ++ l) e
            ∙ sym (append_assoc front middle (signal_free ∷ free_context ∷ [])),
      )

  -- Take such callbacks, a connection with a context, and contexts on the list of which all, this
  -- one too, are outside their callbacks, with their dictionaries and fuel. When xRedisFree has put
  -- the context on the list, the next freeAsyncContextDeal ends, frees all contexts of the list in
  -- order, and at the end of the last of them signals the caller of xRedisFree before it releases
  -- the context.
  pub x_free-Signalled :
      (fuel : ℕ) (same : XContext Obj Store Dict → Bool) (xc : XContext Obj Store Dict)
      (ac : AsyncContext Obj Store Dict) (client : Client Obj Store Dict)
      → xc.ctx ≡ some ac
      → Freeable fuel ac
      → AllFreeable fuel client.free_ac_list
      → Signalled client ac (free_async_context_deal dict user fuel (x_free same xc client))
  unfolding x_free free_async_context_deal AllFreeable
  x_free-Signalled fuel same xc ac client here f h =
      let marked : AsyncContext Obj Store Dict = record ac { freed = true } in
      let whole = client.free_ac_list ++ (marked ∷ []) in
      let d = free_contexts-AllFreed fuel whole (
        AllFreeable-append fuel client.free_ac_list (marked ∷ []) h (
          record {
            outside = f.outside;
            chans = f.chans;
            has_channels = f.has_channels;
            pats = f.pats;
            has_patterns = f.has_patterns;
            replies_fuel = f.replies_fuel;
            invalid_fuel = f.invalid_fuel;
          },
          tt,
        )) in
      let l = AllGone-Last client.free_ac_list d.gone marked d.all_gone in
      let (before, tells) = Gone-tells marked l.last refl l.freed_last in
      let waiting = remove_first same client.reconn_list in
      record {
        front = l.front;
        last = l.last;
        left = record { reconn_list = waiting; free_ac_list = [] };
        returns =
            ap
              (λ ctx.
                let listed = hand_over ctx client in
                free_contexts dict user fuel listed.free_ac_list >>= λ gone. ok (
                  gone,
                  record { reconn_list = remove_first same listed.reconn_list; free_ac_list = [] },
                ))
              here
            ∙ ap (λ o. o >>= λ gone. ok (gone, record { reconn_list = waiting; free_ac_list = [] }))
                d.returns
            ∙ ap (λ gone. ok (gone, record { reconn_list = waiting; free_ac_list = [] })) l.split;
        all_gone = subst (AllGone whole) l.split d.all_gone;
        none_left = refl;
        before = before;
        tells = tells;
      }
