-- ===== src/Multiplex/Commands/Sent.antt =====
-- A command that a caller gives by its arguments, on its way to the output of the connection.
use multiplexing_hiredis.Common.{
  ℕ, zero, suc, ◌^◌, ◌<◌, ◌≤◌, ◌≡◌, refl, sym, ap, ◌∙◌, Bool, true, false, Option, none, some, List,
  [], ◌∷◌, ◌++◌, Bytes, length, take, drop, get_elem?-middle, arith, if◌then◌else◌, append_assoc,
  append-nil, length-append, drop-nil,
}
use multiplexing_hiredis.Common.Outcome.{Outcome, ok, ◌>>=◌}
use multiplexing_hiredis.Format.{sized_args}
use multiplexing_hiredis.Format.Command.{
  AllSized, command, format_sds_command_argv-encode, given_whole,
}
use multiplexing_hiredis.Async.State.{AsyncContext, DictFunctions}
use multiplexing_hiredis.Async.Commands.{Argument}
use multiplexing_hiredis.Async.Plain.{IsPlain, TakesCommands, is_special}
use multiplexing_hiredis.Async.Arguments.{next_argument-command}
use multiplexing_hiredis.Multiplex.State.{
  Request, XContext, connected, is_connected, Submitted, null_reply, queued_as, new_request, submit,
  queue_request,
}
use multiplexing_hiredis.Multiplex.Tasks.{reply_to, command_of, task_count, task_deal}
use multiplexing_hiredis.Multiplex.Tasks.Order.{
  Queue, addresses, bytes_of, callbacks_of, AllPlain, task_deal-Served,
}
use multiplexing_hiredis.Multiplex.Commands.{x_command_argv, submit_formatted}
use multiplexing_hiredis.Resp.{array, bulks, crlf, encode, encode_items}

-- The argument that a command begins with.
abbrev pub first_argument : Bytes → List Bytes → Argument
first_argument w ws = record {
  str = (w ++ crlf) ++ encode_items (bulks ws);
  len = length w;
  next = encode_items (bulks ws);
}

pub encode-IsPlain :
    (w : Bytes) (ws : List Bytes)
    → length w < 2 ^ 31
    → is_special (first_argument w ws) ≡ false
    → IsPlain (encode (array (bulks (w ∷ ws))))
encode-IsPlain w ws h s = record {
  first = first_argument w ws;
  named = next_argument-command w ws h;
  regular = s;
}

addresses-append : (a b : Queue) → addresses (a ++ b) ≡ addresses a ++ addresses b
addresses-append [] b = refl
addresses-append ((x, cmd) ∷ a) b = ap (λ l. x ∷ l) (addresses-append a b)

bytes_of-append : (a b : Queue) → bytes_of (a ++ b) ≡ bytes_of a ++ bytes_of b
bytes_of-append [] b = refl
bytes_of-append ((x, cmd) ∷ a) b =
    ap (λ l. cmd ++ l) (bytes_of-append a b) ∙ sym (append_assoc cmd (bytes_of a) (bytes_of b))

callbacks_of-append : (a b : Queue) → callbacks_of (a ++ b) ≡ callbacks_of a ++ callbacks_of b
callbacks_of-append [] b = refl
callbacks_of-append ((x, cmd) ∷ a) b = ap (λ l. reply_to x ∷ l) (callbacks_of-append a b)

module _ {ℓ} {A : Type ℓ} where
  take_all : (n : ℕ) (xs : List A) → length xs ≤ n → take n xs ≡ xs
  take_all zero [] h = refl
  take_all (suc n) [] h = refl
  take_all zero (x ∷ xs) h = absurd (omega arith)
  take_all (suc n) (x ∷ xs) h = ap (λ l. x ∷ l) (take_all n xs (omega arith))

  drop_all : (n : ℕ) (xs : List A) → length xs ≤ n → drop n xs ≡ []
  drop_all n [] h = drop-nil n
  drop_all zero (x ∷ xs) h = absurd (omega arith)
  drop_all (suc n) (x ∷ xs) h = drop_all n xs (omega arith)

module _ {Obj : Type 0} where
  -- A command stays where it is when others are added.
  command_of-front :
      (requests more : List (Request Obj)) (a : ℕ) (cmd : Bytes)
      → command_of requests a ≡ ok cmd
      → command_of (requests ++ more) a ≡ ok cmd
  unfolding command_of
  command_of-front [] more a cmd e = ground (arith, e)
  command_of-front (r ∷ requests) more zero cmd e = e
  command_of-front (r ∷ requests) more (suc a) cmd e = command_of-front requests more a cmd e

  command_of-last :
      (requests : List (Request Obj)) (cmd : Bytes)
      → command_of (requests ++ (new_request cmd ∷ [])) (length requests) ≡ ok cmd
  unfolding command_of
  command_of-last requests cmd =
      rw (command_of, get_elem?-middle requests (new_request cmd) []) refl

  AllPlain-append :
      (requests : List (Request Obj)) (queue : Queue) (cmd : Bytes)
      → AllPlain requests queue
      → IsPlain cmd
      → AllPlain (requests ++ (new_request cmd ∷ [])) (queue ++ ((length requests, cmd) ∷ []))
  unfolding AllPlain
  AllPlain-append requests [] cmd h p = (command_of-last requests cmd, p, tt)
  AllPlain-append requests ((a, c) ∷ queue) cmd (there, plain, h) p = (
    command_of-front requests (new_request cmd ∷ []) a c there,
    plain,
    AllPlain-append requests queue cmd h p,
  )

module _ {Obj Store Dict : Type 0} where
  -- The connection with one more command on its queue.
  abbrev pub with_request :
      Bytes → AsyncContext Obj Store Dict → XContext Obj Store Dict → XContext Obj Store Dict
  with_request cmd a xc = (queue_request cmd a xc).1

  chosen :
      {R : Type 0} (a : AsyncContext Obj Store Dict) (up : Bool)
      (ctx : Option (AsyncContext Obj Store Dict)) (f : AsyncContext Obj Store Dict → R) (z : R)
      → up ≡ true
      → ctx ≡ some a
      → (elim ctx as (λ _. R) [ none ↦ z | some ac ↦ if up then f ac else z ]) ≡ f a
  chosen a up ctx f z e₁ e₂ = rw (e₂, e₁) refl

  submit-up :
      (cmd : Bytes) (xc : XContext Obj Store Dict) (a : AsyncContext Obj Store Dict)
      → xc.status ≡ connected
      → xc.ctx ≡ some a
      → submit false connected cmd xc ≡ (queued_as (length xc.requests), with_request cmd a xc)
  unfolding submit
  submit-up cmd xc a up here =
      chosen a (is_connected xc.status) xc.ctx (λ ac. queue_request cmd ac xc) (null_reply, xc)
        (ap is_connected up) here

  x_command_argv-queued :
      (argv : List Bytes) (argvlen : Option (List ℕ)) (xc : XContext Obj Store Dict)
      (a : AsyncContext Obj Store Dict)
      → AllSized (sized_args argv argvlen)
      → length (command (sized_args argv argvlen)) < 2 ^ 31
      → xc.status ≡ connected
      → xc.ctx ≡ some a
      → x_command_argv true false connected argv argvlen xc
        ≡ ok (queued_as (length xc.requests), with_request (command (sized_args argv argvlen)) a xc)
  unfolding x_command_argv
  x_command_argv-queued argv argvlen xc a sized short up here =
      ap (λ o. submit_formatted false connected o xc)
        (format_sds_command_argv-encode argv argvlen sized short)
      ∙ ap (λ o. o >>= λ bytes. ok (submit false connected bytes xc))
          (given_whole (command (sized_args argv argvlen)))
      ∙ ap ok (submit-up (command (sized_args argv argvlen)) xc a up here)

module _ {Obj Store Dict : Type 0} (dict : DictFunctions Dict) where
  -- What becomes of a command `cmd` behind those of the queue: it is queued, and the next taskDeal
  -- writes the whole queue.
  pub record Sent (got : Option ℕ) (queue : Queue) (cmd : Bytes) (xc : XContext Obj Store Dict)
      (a : AsyncContext Obj Store Dict) (o : Outcome (Submitted × XContext Obj Store Dict))
      : Type 0 where
    pub queued : XContext Obj Store Dict
    pub submits : o ≡ ok (queued_as (length xc.requests), queued)
    pub after : AsyncContext Obj Store Dict
    pub returns : task_deal dict true got queued ≡ ok (record queued { ctx = some after })
    pub output : after.c.obuf ≡ a.c.obuf ++ (bytes_of queue ++ cmd)
    pub callbacks :
        after.replies ≡ a.replies ++ (callbacks_of queue ++ (reply_to (length xc.requests) ∷ []))
    pub left : after.cmd_list ≡ []

  -- Take a connection that is up and takes commands, with plain commands on its queue that are
  -- there, and memory. A plain command that is given by its arguments, where no size goes past the
  -- memory of its argument and the command is shorter than 2 ^ 31 bytes, is queued behind those; and
  -- a taskDeal that read a byte for every command on the queue then, or none at all while there are
  -- no more than 1024, ends and writes them all in order, the new command last, as the array of its
  -- arguments as bulk strings. Its callback waits behind the others'.
  pub x_command_argv-Sent :
      (got : Option ℕ) (queue : Queue) (argv : List Bytes) (argvlen : Option (List ℕ))
      (xc : XContext Obj Store Dict) (a : AsyncContext Obj Store Dict)
      → xc.status ≡ connected
      → xc.ctx ≡ some a
      → AllPlain xc.requests queue
      → TakesCommands dict a
      → a.cmd_list ≡ addresses queue
      → length queue < task_count got
      → AllSized (sized_args argv argvlen)
      → length (command (sized_args argv argvlen)) < 2 ^ 31
      → IsPlain (command (sized_args argv argvlen))
      → Sent got queue
          (command (sized_args argv argvlen))
          xc
          a
          (x_command_argv true false connected argv argvlen xc)
  x_command_argv-Sent got queue argv argvlen xc a up here all takes same enough sized short plain =
      let cmd = command (sized_args argv argvlen) in
      let n = length xc.requests in
      let more : Queue = queue ++ ((n, cmd) ∷ []) in
      let a' : AsyncContext Obj Store Dict = record a { cmd_list = a.cmd_list ++ (n ∷ []) } in
      let count : length more ≤ task_count got =
        omega (arith, length-append queue ((n, cmd) ∷ [])) in
      let served =
        task_deal-Served dict got more (with_request cmd a xc) a' up refl
          (AllPlain-append xc.requests queue cmd all plain)
          (record { stays = takes.stays; kept = takes.kept; unsubscribed = takes.unsubscribed })
          (ap (λ l. l ++ (n ∷ [])) same ∙ sym (addresses-append queue ((n, cmd) ∷ []))) in
      let whole = take_all (task_count got) more count in
      record {
        queued = with_request cmd a xc;
        submits = x_command_argv-queued argv argvlen xc a sized short up here;
        after = served.after;
        returns = served.returns;
        output =
            served.output
            ∙ ap (λ q. a.c.obuf ++ bytes_of q) whole
            ∙ ap (λ b. a.c.obuf ++ b)
                (bytes_of-append queue ((n, cmd) ∷ [])
                  ∙ ap (λ b. bytes_of queue ++ b) (append-nil cmd));
        callbacks =
            served.callbacks
            ∙ ap (λ q. a.replies ++ callbacks_of q) whole
            ∙ ap (λ l. a.replies ++ l) (callbacks_of-append queue ((n, cmd) ∷ []));
        left = served.left ∙ ap addresses (drop_all (task_count got) more count);
      }
