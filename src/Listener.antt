-- ===== src/Listener.antt =====
-- net/src/tcp_server.cpp: `tcp_server::listener`, the coroutine that accepts connections, backs off
-- when the system is out of a resource, and stops at any other error.
pub mod Rate
pub mod Course
mod Examples
use libsg.Common.{
  ℕ, suc, ◌+◌, ◌*◌, min, add64, Bool, true, false, Option, none, some, List, [], ◌∷◌, ◌++◌, ◌||◌,
  ◌==◌, leb, if◌then◌else◌,
}

-- The codes that the source names, and all others.
pub data ErrorCode : Type 0 where
  no_descriptors too_many_files_open_in_system no_buffer_space no_memory no_stream_resources :
      ErrorCode
  interrupted try_again would_block : ErrorCode
  connection_aborted connection_reset timed_out : ErrorCode
  network_down network_unreachable network_reset host_unreachable no_protocol_option : ErrorCode
  operation_not_supported protocol_error in_progress host_down no_network : ErrorCode
  operation_aborted : ErrorCode
  other : ℕ → ErrorCode

-- as compiled where `EHOSTDOWN` and `ENONET` are defined
abbrev pub is_transient_accept_error : ErrorCode → Bool
is_transient_accept_error ErrorCode.operation_aborted = false
is_transient_accept_error (ErrorCode.other n) = false
is_transient_accept_error _ = true

-- in milliseconds
abbrev pub accept_retry_min : ℕ
accept_retry_min = 1

abbrev pub accept_retry_max : ℕ
accept_retry_max = 500

-- `ShouldAccept`, if it is set
pub data Verdict : Type 0 where
  accepts rejects throws : Verdict

-- One turn of the loop: what it reads of `m_stop_in_operation` in its test and after the accept,
-- and what the accept gives.
pub record Attempt : Type 0 where
  pub stop_before : Bool
  pub ec : Option ErrorCode
  pub stop_after : Bool
  pub verdict : Verdict

-- What the loop does to the outside.
pub data Action : Type 0 where
  reported : ErrorCode → Action  -- OnAcceptError
  waited : ℕ → Action
  created : ℕ → Action  -- a session with that id
  stops : Action  -- stop_async

pub record Listener : Type 0 where
  pub backoff : ℕ
  pub last_id : ℕ
  pub last_error : Option ErrorCode
  pub listening : Bool
  pub log : List Action

-- Before the loop, in a server that was just started.
abbrev pub fresh : Listener
fresh = record {
  backoff = accept_retry_min;
  last_id = 0;
  last_error = none;
  listening = true;
  log = [];
}

-- The first error stays.
abbrev pub keep_first : Option ErrorCode → ErrorCode → Option ErrorCode
keep_first none ec = some ec
keep_first (some e) ec = some e

abbrev pub is_aborted : ErrorCode → Bool
is_aborted ErrorCode.operation_aborted = true
is_aborted _ = false

unfoldable pub fatal : ErrorCode → Listener → Listener
fatal ec l = record l {
  last_error = if is_aborted ec then l.last_error else keep_first l.last_error ec;
  listening = false;
  log = l.log ++ (Action.stops ∷ []);
}

abbrev pub reports : ℕ → Bool
reports backoff = backoff == accept_retry_min || leb accept_retry_max backoff

unfoldable pub back_off : ErrorCode → Listener → Listener
back_off ec l = record l {
  backoff = min (l.backoff * 2) accept_retry_max;
  log =
      (if reports l.backoff then l.log ++ (Action.reported ec ∷ []) else l.log)
      ++ (Action.waited l.backoff ∷ []);
}

unfoldable pub accept_error : Bool → ErrorCode → Listener → Listener
unfolding fatal back_off
accept_error stop ec l =
    if is_transient_accept_error ec then (if stop then l else back_off ec l) else fatal ec l

-- A filter that throws costs this connection and nothing more.
unfoldable pub filter : Verdict → Listener → Listener
filter Verdict.accepts l = record l {
  last_id = add64 l.last_id 1;
  log = l.log ++ (Action.created l.last_id ∷ []);
}
filter Verdict.rejects l = l
filter Verdict.throws l = l

unfoldable pub accept_connection : Bool → Verdict → Listener → Listener
unfolding filter
accept_connection stop v l =
    let reset = record l { backoff = accept_retry_min } in if stop then reset else filter v reset

unfoldable pub turn : Attempt → Listener → Listener
unfolding accept_error accept_connection
turn a l = elim a.stop_before [
  | true ↦ record l { listening = false }
  | false ↦ elim a.ec [
    | some ec ↦ accept_error a.stop_after ec l
    | none ↦ accept_connection a.stop_after a.verdict l
  ]
]

unfoldable pub listen : List Attempt → Listener → Listener
unfolding turn
listen [] l = l
listen (a ∷ xs) l = elim l.listening [ true ↦ listen xs (turn a l) | false ↦ l ]
