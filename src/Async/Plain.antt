-- ===== src/Async/Plain.antt =====
-- __redisAsyncCommand on a command that is none of the special ones.
use multiplexing_hiredis.Common.{
  suc, ◌≡◌, refl, ap, ◌∙◌, Bool, true, false, ◌&&◌, ◌||◌, Option, some, none, List, [], ◌∷◌, ◌++◌,
  if◌then◌else◌, Bytes, codes, length, drop, ◌==◌, arith,
}
use multiplexing_hiredis.Common.Outcome.{Outcome, ok, abort, out_of_fuel, ◌>>=◌}
use multiplexing_hiredis.Sds
use multiplexing_hiredis.Reader.State.{Status, redis_ok, redis_err}
use multiplexing_hiredis.Format.Vararg.{peek}
use multiplexing_hiredis.Context.{append_command}
use multiplexing_hiredis.Async.State.{
  Callback, DictFunctions, add_write, AsyncContext, push_callback, set_subscribed, set_monitoring,
}
use multiplexing_hiredis.Async.Commands.{
  Argument, to_lower, next_argument, starts_with, register, register_regular, subscribe_all,
  queue_command, async_command,
}
use multiplexing_hiredis.Async.Accept.{push_callback_lem}

-- The name of a command behind a `p`.
abbrev pub base_name : Argument → Bytes
base_name first = if to_lower (peek first.str) == 112 then drop 1 first.str else first.str

-- (P)SUBSCRIBE, (P)UNSUBSCRIBE and MONITOR, which are not registered like others.
unfoldable pub is_special : Argument → Bool
is_special first =
    starts_with (codes "subscribe\r\n") (base_name first)
    || (starts_with (codes "unsubscribe\r\n") (base_name first)
        || starts_with (codes "monitor\r\n") (base_name first))

-- A formatted command with a name that is not special.
pub record IsPlain (cmd : Bytes) : Type 0 where
  pub first : Argument
  pub named : next_argument cmd ≡ ok (some first)
  pub regular : is_special first ≡ false

module _ {Obj Store Dict : Type 0} (dict : DictFunctions Dict) where
  -- The connection takes commands, and no channel is subscribed.
  pub record TakesCommands (ac : AsyncContext Obj Store Dict) : Type 0 where
    pub stays : ac.c.flags.disconnecting ≡ false
    pub kept : ac.c.flags.freeing ≡ false
    pub unsubscribed : ac.c.flags.subscribed ≡ false

  -- The context behind a command.
  abbrev pub with_command :
      Callback → Bytes → AsyncContext Obj Store Dict → AsyncContext Obj Store Dict
  with_command cb cmd ac = record ac {
    c = record (ac.c) { obuf = ac.c.obuf ++ cmd };
    replies = ac.replies ++ (cb ∷ []);
    trace = ac.trace ++ (add_write ∷ []);
  }

  register-plain :
      (cb : Callback) (first : Argument) (ac : AsyncContext Obj Store Dict)
      → is_special first ≡ false
      → ac.c.flags.subscribed ≡ false
      → register dict cb first ac ≡ ok (some (record ac { replies = push_callback cb ac.replies }))
  unfolding register register_regular is_special
  register-plain cb first ac p u =
      go (peek first.next == 36) (starts_with (codes "subscribe\r\n") (base_name first))
        (starts_with (codes "unsubscribe\r\n") (base_name first))
        (starts_with (codes "monitor\r\n") (base_name first)) ac.c.flags.subscribed
        (subscribe_all dict (suc (length first.next)) (to_lower (peek first.str) == 112) cb
          first.next (set_subscribed true ac))
        p u
    where
      go :
          (next subscribes unsubscribes monitors on : Bool)
          (all : Outcome (AsyncContext Obj Store Dict))
          → subscribes || (unsubscribes || monitors) ≡ false
          → on ≡ false
          → (if next && subscribes
              then (all >>= λ ac'. ok (some ac'))
              else if unsubscribes
              then ok (if on then some ac else none)
              else if monitors
              then ok (some (record (set_monitoring ac) { replies = push_callback cb ac.replies }))
              else ok (
                  some (
                    if on
                    then record ac { invalid = push_callback cb ac.invalid }
                    else record ac { replies = push_callback cb ac.replies })))
            ≡ ok (some (record ac { replies = push_callback cb ac.replies }))
      go true false false false false all p' u' = refl
      go false false false false false all p' u' = refl
      go next true u' m on all p' e = ground arith
      go next false true m on all p' e = ground arith
      go next false false true on all p' e = ground arith
      go next false false false true all p' e = ground arith

  -- The branches of the call, on values.
  accepts :
      (cb : Callback) (cmd : Bytes) (a a₁ : AsyncContext Obj Store Dict) (refuse : Bool)
      (o : Outcome (Option Argument)) (first : Argument)
      → refuse ≡ false
      → o ≡ ok (some first)
      → register dict cb first a ≡ ok (some a₁)
      → (if refuse
          then ok (redis_err, a)
          else elim o as (λ _. Outcome (Status × AsyncContext Obj Store Dict)) [
            | ok (some first) ↦
                elim (register dict cb first a)
                  as (λ _. Outcome (Status × AsyncContext Obj Store Dict)) [
                    | ok (some ac') ↦ ok (redis_ok, queue_command dict true cmd ac')
                    | ok none ↦ ok (redis_err, a)
                    | abort ↦ abort
                    | out_of_fuel ↦ out_of_fuel
                  ]
            | ok none ↦ abort
            | abort ↦ abort
            | out_of_fuel ↦ out_of_fuel
          ])
        ≡ ok (redis_ok, queue_command dict true cmd a₁)
  accepts cb cmd a a₁ refuse o first e₁ e₂ e₃ = rw (e₁, e₂, e₃) refl

  -- A plain command is accepted by a connection that takes commands: its callback is the last one to
  -- wait for a reply, and it stands whole at the end of the output.
  pub async_command-plain :
      (cb : Callback) (cmd : Bytes) (ac : AsyncContext Obj Store Dict)
      → IsPlain cmd
      → TakesCommands ac
      → async_command dict true cb cmd ac ≡ ok (redis_ok, with_command cb cmd ac)
  unfolding async_command queue_command append_command Sds.cat_len
  async_command-plain cb cmd ac p t =
      accepts cb cmd ac (record ac { replies = push_callback cb ac.replies })
        (ac.c.flags.disconnecting || ac.c.flags.freeing) (next_argument cmd) p.first
        (rw (t.stays, t.kept) refl) p.named (register-plain cb p.first ac p.regular t.unsubscribed)
      ∙ ap (λ l. ok (redis_ok, with_replies l)) (push_callback_lem cb ac.replies)
    where
      with_replies : List Callback → AsyncContext Obj Store Dict
      with_replies l = record ac {
        c = record (ac.c) { obuf = ac.c.obuf ++ cmd };
        replies = l;
        trace = ac.trace ++ (add_write ∷ []);
      }
