-- ===== src/Tracer/Flags.antt =====
-- tracerctr.h: the flags of `cTracerCtr`, which the threads of the client set and reset. They are
-- static, so every object shares them.
use epsolar_tracer_client.Base.{Bool, true, false}

pub record Flags : Type 0 where
  pub need_tracer_statistic : Bool
  pub need_tracer_realtime : Bool
  pub need_server_statistic : Bool
  pub need_server_realtime : Bool

-- their initial values
abbrev pub all_needed : Flags
all_needed = record {
  need_tracer_statistic = true;
  need_tracer_realtime = true;
  need_server_statistic = true;
  need_server_realtime = true;
}

-- the `Trigger...update` functions
abbrev pub trigger_tracer_statistic : Flags → Flags
trigger_tracer_statistic f = record f { need_tracer_statistic = true }

abbrev pub trigger_tracer_realtime : Flags → Flags
trigger_tracer_realtime f = record f { need_tracer_realtime = true }

abbrev pub trigger_server_statistic : Flags → Flags
trigger_server_statistic f = record f { need_server_statistic = true }

abbrev pub trigger_server_realtime : Flags → Flags
trigger_server_realtime f = record f { need_server_realtime = true }

-- the `Reset...update` functions
abbrev pub reset_tracer_statistic : Flags → Flags
reset_tracer_statistic f = record f { need_tracer_statistic = false }

abbrev pub reset_tracer_realtime : Flags → Flags
reset_tracer_realtime f = record f { need_tracer_realtime = false }

abbrev pub reset_server_statistic : Flags → Flags
reset_server_statistic f = record f { need_server_statistic = false }

abbrev pub reset_server_realtime : Flags → Flags
reset_server_realtime f = record f { need_server_realtime = false }
