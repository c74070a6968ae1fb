-- ===== src/Tests/Connections.antt =====
-- Connections of the multiplexing client that are opened and freed, at concrete inputs.
use multiplexing_hiredis.Common.{refl, Bool, [], ◌∷◌, arith, ◌==◌}
use multiplexing_hiredis.Reader.State.{ReplyType}
use multiplexing_hiredis.Multiplex.State.{XContext}
use multiplexing_hiredis.Multiplex.Free.{Client, x_free, free_async_context_deal}
use multiplexing_hiredis.Multiplex.Free.Contexts.{
  Freeable, AllFreeable, Signalled, x_free-Signalled,
}
use multiplexing_hiredis.Tests.Callbacks.{Entries, list_dict, idle_context, leave_alone}
use multiplexing_hiredis.Tests.Multiplex.{busy, queued_context}

-- One connection waits to be connected again, and one context to be freed.
abbrev client : Client ReplyType (Unit {0}) Entries
client = record { reconn_list = busy ∷ []; free_ac_list = idle_context ∷ [] }

queued_context-Freeable : Freeable 1 queued_context
queued_context-Freeable = record {
  outside = refl;
  chans = _;
  has_channels = refl;
  pats = _;
  has_patterns = refl;
  replies_fuel = omega arith;
  invalid_fuel = omega arith;
}

idle_context-Freeable : Freeable 1 idle_context
idle_context-Freeable = record {
  outside = refl;
  chans = _;
  has_channels = refl;
  pats = _;
  has_patterns = refl;
  replies_fuel = omega arith;
  invalid_fuel = omega arith;
}

listed-AllFreeable : AllFreeable 1 client.free_ac_list
unfolding AllFreeable
listed-AllFreeable = (idle_context-Freeable, tt)

abbrev same_port : XContext ReplyType (Unit {0}) Entries → Bool
same_port xc = xc.port == 6379

x_free-Signalled_example :
    Signalled list_dict leave_alone
      (λ cb o ac. refl)
      client
      queued_context
      (free_async_context_deal list_dict leave_alone 1 (x_free same_port busy client))
x_free-Signalled_example =
    x_free-Signalled list_dict leave_alone (λ cb o ac. refl) 1 same_port busy queued_context client
      refl queued_context-Freeable listed-AllFreeable
