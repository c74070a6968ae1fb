-- ===== src/Tests/Multiplex.antt =====
-- Concrete runs of the multiplexing client, and its theorems at concrete inputs.
use multiplexing_hiredis.Common.{
  ◌^◌, ◌<◌, length, Bytes, ℕ, ◌≡◌, refl, true, false, none, some, List, [], ◌∷◌, arith, codes,
}
use multiplexing_hiredis.Reader.State.{ReplyType, redis_err}
use multiplexing_hiredis.Multiplex.Life.{
  Life, live, Label, wake, time_out, skip_wait, fetch, give_up, search_list, check_status, send,
  answer, store_reply, post, disconnect, submitted, step, run, returned,
}
use multiplexing_hiredis.Async.State.{AsyncContext}
use multiplexing_hiredis.Async.Plain.{IsPlain, TakesCommands, is_special}
use multiplexing_hiredis.Async.Commands.{next_argument, starts_with}
use multiplexing_hiredis.Multiplex.Callbacks.{is_listed, Going, disconnected_callback}
use multiplexing_hiredis.Multiplex.Callbacks.Down.{WentDown, disconnected_callback-WentDown}
use multiplexing_hiredis.Multiplex.State.{XContext, connected, disconnecting, new_request}
use multiplexing_hiredis.Multiplex.Tasks.{command_of, task_count, task_deal}
use multiplexing_hiredis.Common.Decimal.{print_nat, digits_from}
use multiplexing_hiredis.Format.{sized_args, strlen}
use multiplexing_hiredis.Format.Command.{command}
use multiplexing_hiredis.Resp.{encode, encode_items}
use multiplexing_hiredis.Multiplex.Commands.{x_command_argv}
use multiplexing_hiredis.Multiplex.Commands.Sent.{Sent, encode-IsPlain, x_command_argv-Sent}
use multiplexing_hiredis.Multiplex.Tasks.Order.{Queue, AllPlain, Served, task_deal-Served}
use multiplexing_hiredis.Multiplex.Reconnect.{Attempt, reconnect_passes}
use multiplexing_hiredis.Multiplex.Reconnect.Backoff.{AllDue, BackedOff, reconnect_passes-BackedOff}
use multiplexing_hiredis.Tests.Callbacks.{Entries, list_dict, idle_context, ping}

-- A command that is answered with 7.
abbrev after : List (Label ℕ) → Life ℕ
after labels = elim (run labels submitted) [ none ↦ submitted | some s ↦ s ]

abbrev life_steps : List (Label ℕ)
life_steps = send ∷ answer (some 7) ∷ store_reply ∷ post ∷ wake ∷ fetch ∷ give_up ∷ []

life-returned : (after life_steps).caller ≡ returned (some 7)
unfolding run step
life-returned = refl

-- The wait ends by the time before the command is answered.
abbrev late_steps : List (Label ℕ)
late_steps = send ∷ time_out ∷ fetch ∷ give_up ∷ search_list ∷ check_status ∷ answer (some 7) ∷ []

late_life-returned : (after late_steps).caller ≡ returned none
unfolding run step
late_life-returned = refl

-- The caller finds the reply before the semaphore is posted, and frees the cmdInfo.
skipped_wait :
    (after (send ∷ answer (some 7) ∷ store_reply ∷ skip_wait ∷ fetch ∷ give_up ∷ post ∷ [])).broken
    ≡ true
unfolding run step
skipped_wait = refl

-- The wait ends by the time while replyCallback runs.
late_callback :
    (after (send ∷ answer (some 7) ∷ time_out ∷ fetch ∷ give_up ∷ store_reply ∷ [])).broken ≡ true
unfolding run step
late_callback = refl

-- The wait ends by the time, and the connection is lost before the command is answered.
late_disconnect :
    (after (
      send
      ∷ time_out
      ∷ fetch
      ∷ give_up
      ∷ search_list
      ∷ disconnect
      ∷ check_status
      ∷ answer none
      ∷ [])).broken
    ≡ true
unfolding run step
late_disconnect = refl

-- A connection that is up, with two commands on its queue.
abbrev pub two_pings : Queue
two_pings = (0, ping) ∷ (1, ping) ∷ []

abbrev pub queued_context : AsyncContext ReplyType (Unit {0}) Entries
queued_context = record idle_context { cmd_list = 0 ∷ 1 ∷ [] }

abbrev pub busy : XContext ReplyType (Unit {0}) Entries
busy = record {
  ctx = some queued_context;
  ip = codes "10.0.0.1";
  port = 6379;
  status = connected;
  wait_time_reconn = 1;
  remain_wait_reconn = 0;
  requests = new_request ping ∷ new_request ping ∷ [];
}

abbrev pub other : XContext ReplyType (Unit {0}) Entries
other = record busy { port = 6380 }

ping-IsPlain : IsPlain ping
unfolding next_argument is_special starts_with
ping-IsPlain = record {
  first = record { str = codes "PING\r\n"; len = 4; next = [] };
  named = refl;
  regular = refl;
}

two_pings-AllPlain : AllPlain busy.requests two_pings
unfolding AllPlain command_of
two_pings-AllPlain = (refl, ping-IsPlain, (refl, ping-IsPlain, tt))

queued_context-TakesCommands : TakesCommands list_dict queued_context
queued_context-TakesCommands = record { stays = refl; kept = refl; unsubscribed = refl }

task_deal-Served_example :
    Served list_dict
      (task_count (some 1))
      two_pings
      busy
      queued_context
      (task_deal list_dict true (some 1) busy)
task_deal-Served_example =
    task_deal-Served list_dict (some 1) two_pings busy queued_context refl refl two_pings-AllPlain
      queued_context-TakesCommands refl

-- "GET key", given by its arguments, behind the two commands.
abbrev get_key : List Bytes
get_key = codes "GET" ∷ codes "key" ∷ []

get_key-IsPlain : IsPlain (command (sized_args get_key none))
unfolding is_special starts_with sized_args strlen encode_items print_nat digits_from
get_key-IsPlain = encode-IsPlain (codes "GET") (codes "key" ∷ []) (omega arith) refl

get_key_short : length (command (sized_args get_key none)) < 2 ^ 31
unfolding encode encode_items print_nat digits_from sized_args strlen
get_key_short = omega arith

x_command_argv-Sent_example :
    Sent list_dict
      (some 3)
      two_pings
      (command (sized_args get_key none))
      busy
      queued_context
      (x_command_argv true false connected get_key none busy)
x_command_argv-Sent_example =
    x_command_argv-Sent list_dict (some 3) two_pings get_key none busy queued_context refl refl
      two_pings-AllPlain queued_context-TakesCommands refl (omega arith)
      (unfold sized_args strlen in omega arith) get_key_short get_key-IsPlain

-- A server that cannot be reached, and one that can.
abbrev pub unreachable : Attempt ReplyType (Unit {0})
unreachable = record { memory = true; dial = λ c. c; room = true; seen = disconnecting }

abbrev pub reachable : Attempt ReplyType (Unit {0})
reachable = record { memory = true; dial = λ c. c; room = true; seen = connected }

-- Two failures: the second attempt is made in the fourth pass, and a third in the ninth.
reconnect_passes-BackedOff_example :
    BackedOff 2 1 (busy ∷ []) (reconnect_passes [] tt (λ m xc. unreachable) 8 (busy ∷ []))
unfolding AllDue
reconnect_passes-BackedOff_example =
    reconnect_passes-BackedOff [] tt (λ m xc. unreachable) 2 1 8 (busy ∷ []) (λ m xc. refl)
      (refl, refl, tt) (omega arith) (omega arith)

-- The connection 7 with two commands on its queue, one of which its caller has given up; 4 waits
-- already.
abbrev going_down : Going ReplyType (Unit {0}) Entries
going_down = record {
  ac = record idle_context { cmd_list = 1 ∷ 0 ∷ [] };
  xc = record busy {
    requests =
        new_request ping
        ∷ record { cmd = ping; info = live (record { reply = none; reference = 1; posts = 0 }) }
        ∷ [];
  };
  reconn_list = 4 ∷ [];
}

disconnected_callback-WentDown_example :
    WentDown 7 going_down (disconnected_callback redis_err 7 going_down)
unfolding is_listed
disconnected_callback-WentDown_example =
    disconnected_callback-WentDown 7 going_down (refl, (refl, tt))
      ((_, _, refl, refl), ((_, _, refl, refl), tt)) (refl, tt)
