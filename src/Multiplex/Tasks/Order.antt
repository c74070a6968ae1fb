-- ===== src/Multiplex/Tasks/Order.antt =====
-- taskDeal sends the commands of the queue in their order.
use multiplexing_hiredis.Common.{
  ℕ, zero, suc, ◌-◌, ◌≡◌, refl, sym, ap, ◌∙◌, Bool, true, false, Option, none, some, List, [], ◌∷◌,
  ◌++◌, Bytes, take, drop, leb, ltb, if◌then◌else◌, append_assoc, append-nil, arith,
}
use multiplexing_hiredis.Common.Outcome.{Outcome, ok, abort, ◌>>=◌}
use multiplexing_hiredis.Async.State.{AsyncContext, Callback, DictFunctions}
use multiplexing_hiredis.Async.Plain.{IsPlain, TakesCommands, with_command, async_command-plain}
use multiplexing_hiredis.Multiplex.State.{Request, XContext, connected, is_connected}
use multiplexing_hiredis.Multiplex.Tasks.{
  reply_to, command_of, send_task, send_tasks, task_count, task_deal,
}

-- A queue of cmdInfos with their commands.
abbrev pub Queue : Type 0
Queue = List (ℕ × Bytes)

abbrev pub addresses : Queue → List ℕ
addresses [] = []
addresses ((a, cmd) ∷ queue) = a ∷ addresses queue

-- The bytes of the commands, one behind the other.
abbrev pub bytes_of : Queue → Bytes
bytes_of [] = []
bytes_of ((a, cmd) ∷ queue) = cmd ++ bytes_of queue

abbrev pub callbacks_of : Queue → List Callback
callbacks_of [] = []
callbacks_of ((a, cmd) ∷ queue) = reply_to a ∷ callbacks_of queue

-- The cmdInfos are there with those commands, which are plain.
unfoldable pub AllPlain : {Obj : Type 0} → List (Request Obj) → Queue → Type 0
AllPlain requests [] = Unit
AllPlain requests ((a, cmd) ∷ queue) =
    (command_of requests a ≡ ok cmd) × IsPlain cmd × AllPlain requests queue

task_count_pos : (got : Option ℕ) → (n : ℕ) × (task_count got ≡ suc n)
task_count_pos none = (1023, refl)
task_count_pos (some zero) = (1023, refl)
task_count_pos (some (suc n)) = (n, rw (some_task n) refl)
  where
    some_task : (n : ℕ) → ltb (suc n) 1 ≡ false
    some_task n = ground arith

module _ {Obj Store Dict : Type 0} (dict : DictFunctions Dict) where
  -- What has happened to the context when the first `n` commands were sent.
  pub record Delivered (n : ℕ) (queue : Queue) (a : AsyncContext Obj Store Dict)
      (o : Outcome (AsyncContext Obj Store Dict)) : Type 0 where
    pub after : AsyncContext Obj Store Dict
    pub returns : o ≡ ok after
    pub output : after.c.obuf ≡ a.c.obuf ++ bytes_of (take n queue)
    pub callbacks : after.replies ≡ a.replies ++ callbacks_of (take n queue)
    pub left : after.cmd_list ≡ addresses (drop n queue)

  send_task-plain :
      (requests : List (Request Obj)) (a : ℕ) (cmd : Bytes) (ac : AsyncContext Obj Store Dict)
      → command_of requests a ≡ ok cmd
      → IsPlain cmd
      → TakesCommands dict ac
      → send_task dict true requests a ac ≡ ok (with_command dict (reply_to a) cmd ac)
  unfolding send_task
  send_task-plain requests a cmd ac e p t =
      rw (e, async_command-plain dict (reply_to a) cmd ac p t) refl

  -- One more command before what is sent then.
  Delivered-cons :
      (n a : ℕ) (cmd : Bytes) (queue : Queue) (ac : AsyncContext Obj Store Dict)
      (o : Outcome (AsyncContext Obj Store Dict))
      → Delivered n queue (with_command dict (reply_to a) cmd ac) o
      → Delivered (suc n) ((a, cmd) ∷ queue) ac o
  Delivered-cons n a cmd queue ac o d = record {
    after = d.after;
    returns = d.returns;
    output = d.output ∙ append_assoc ac.c.obuf cmd (bytes_of (take n queue));
    callbacks =
        d.callbacks ∙ append_assoc ac.replies (reply_to a ∷ []) (callbacks_of (take n queue));
    left = d.left;
  }

  unqueued :
      (ac : AsyncContext Obj Store Dict) (cmd_list : List ℕ)
      → TakesCommands dict ac
      → TakesCommands dict (record ac { cmd_list = cmd_list })
  unqueued ac cmd_list t = record { stays = t.stays; kept = t.kept; unsubscribed = t.unsubscribed }

  served :
      (ac : AsyncContext Obj Store Dict) (cb : Callback) (cmd : Bytes) (cmd_list : List ℕ)
      → TakesCommands dict ac
      → TakesCommands dict (with_command dict cb cmd (record ac { cmd_list = cmd_list }))
  served ac cb cmd cmd_list t = record {
    stays = t.stays;
    kept = t.kept;
    unsubscribed = t.unsubscribed;
  }

  send_tasks-Delivered :
      (requests : List (Request Obj)) (n : ℕ) (queue : Queue) (ac : AsyncContext Obj Store Dict)
      → AllPlain requests queue
      → TakesCommands dict ac
      → ac.cmd_list ≡ addresses queue
      → Delivered (suc n) queue ac (send_tasks dict true requests (suc n) (addresses queue) ac)
  unfolding send_tasks AllPlain
  send_tasks-Delivered requests n [] ac p t e = record {
    after = ac;
    returns = refl;
    output = sym (append-nil ac.c.obuf);
    callbacks = sym (append-nil ac.replies);
    left = e;
  }
  send_tasks-Delivered requests zero ((a, cmd) ∷ queue) ac (there, plain, p) t e =
      let ac' = record ac { cmd_list = addresses queue } in
      rw (send_task-plain requests a cmd ac' there plain (unqueued ac (addresses queue) t)) (
        Delivered-cons 0 a cmd queue ac (ok (with_command dict (reply_to a) cmd ac')) (record {
          after = with_command dict (reply_to a) cmd ac';
          returns = refl;
          output = sym (append-nil (ac.c.obuf ++ cmd));
          callbacks = sym (append-nil (ac.replies ++ (reply_to a ∷ [])));
          left = refl;
        }))
  send_tasks-Delivered requests (suc n) ((a, cmd) ∷ queue) ac (there, plain, p) t e =
      let ac' = record ac { cmd_list = addresses queue } in
      let sent = with_command dict (reply_to a) cmd ac' in
      let d =
        send_tasks-Delivered requests n queue sent p
          (served ac (reply_to a) cmd (addresses queue) t) refl in
      let not_last : leb (suc (suc n)) 1 ≡ false = ground arith in
      let one_less : suc (suc n) - 1 ≡ suc n = omega arith in
      rw
        (
          send_task-plain requests a cmd ac' there plain (unqueued ac (addresses queue) t),
          not_last,
          one_less,
        )
        (Delivered-cons (suc n) a cmd queue ac
          (send_tasks dict true requests (suc n) (addresses queue) sent)
          (record {
            after = d.after;
            returns = d.returns;
            output = d.output;
            callbacks = d.callbacks;
            left = d.left;
          }))

  -- The context of a connection whose queue the loop serves.
  abbrev pub with_ctx :
      XContext Obj Store Dict → AsyncContext Obj Store Dict → XContext Obj Store Dict
  with_ctx xc ac = record xc { ctx = some ac }

  -- What becomes of a connection when the first `n` commands of its queue are sent.
  pub record Served (n : ℕ) (queue : Queue) (xc : XContext Obj Store Dict)
      (a : AsyncContext Obj Store Dict) (o : Outcome (XContext Obj Store Dict)) : Type 0 where
    pub after : AsyncContext Obj Store Dict
    pub returns : o ≡ ok (with_ctx xc after)
    pub output : after.c.obuf ≡ a.c.obuf ++ bytes_of (take n queue)
    pub callbacks : after.replies ≡ a.replies ++ callbacks_of (take n queue)
    pub left : after.cmd_list ≡ addresses (drop n queue)

  branches :
      (xc : XContext Obj Store Dict) (a : AsyncContext Obj Store Dict) (up : Bool)
      (ctx : Option (AsyncContext Obj Store Dict))
      (sent : AsyncContext Obj Store Dict → Outcome (XContext Obj Store Dict))
      → up ≡ true
      → ctx ≡ some a
      → (if up
          then elim ctx as (λ _. Outcome (XContext Obj Store Dict)) [
            | none ↦ abort
            | some ac ↦ sent ac
          ]
          else ok xc)
        ≡ sent a
  branches xc a up ctx sent e₁ e₂ = rw (e₁, e₂) refl

  -- Take a connection that is up and takes commands, with memory, whose queue holds plain commands
  -- that are there. Then taskDeal ends; it sends the first commands of the queue, as many as it read
  -- bytes from the pipe, or 1024 where it read none: their bytes stand in the queue's order behind
  -- the output, their callbacks wait in the same order behind the others, and the rest stays queued.
  pub task_deal-Served :
      (got : Option ℕ) (queue : Queue) (xc : XContext Obj Store Dict)
      (a : AsyncContext Obj Store Dict)
      → xc.status ≡ connected
      → xc.ctx ≡ some a
      → AllPlain xc.requests queue
      → TakesCommands dict a
      → a.cmd_list ≡ addresses queue
      → Served (task_count got) queue xc a (task_deal dict true got xc)
  unfolding task_deal
  task_deal-Served got queue xc a up here p t e =
      let (n, count) = task_count_pos got in
      let d = send_tasks-Delivered xc.requests n queue a p t e in
      record {
        after = d.after;
        returns =
            branches xc a (is_connected xc.status) xc.ctx
              (λ ac. send_tasks dict true xc.requests (task_count got) ac.cmd_list ac >>= λ ac'.
                ok (with_ctx xc ac'))
              (ap is_connected up) here
            ∙ ap
                (λ q. send_tasks dict true xc.requests (task_count got) q a >>= λ ac'.
                  ok (with_ctx xc ac'))
                e
            ∙ ap
                (λ k. send_tasks dict true xc.requests k (addresses queue) a >>= λ ac'.
                  ok (with_ctx xc ac'))
                count
            ∙ ap (λ o. o >>= λ ac'. ok (with_ctx xc ac')) d.returns;
        output = rw count d.output;
        callbacks = rw count d.callbacks;
        left = rw count d.left;
      }
