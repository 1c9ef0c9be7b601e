-- ===== src/TcpServer/Sessions.antt =====
-- What holds of each session, and of their number, in every state of the server.
use libsg.Common.{ℕ, ◌≤◌, ◌≡◌, ◌⊎◌, refl, Bool, true, false, [], ◌∷◌, arith}
use libsg.TcpServer.{
  Server, Session, Life, new_session, disconnect_all, accept, count_session, register, announce,
  opened, open_fails, inform, erase, release, ask, on_session, count_up, count_down,
}
use libsg.TcpServer.System.{count, is_opening, HasFree, Has, was_connected, Move}
use libsg.TcpServer.Counting.{
  All, one, count-append, count-change, count-map, All-append, All-get, All-change, All-map,
}

-- between the increment and the decrement of `m_active_sessions`
abbrev pub in_flight : Session → Bool
in_flight x = elim x.life [
  | Life.created ↦ false
  | Life.gone ↦ false
  | Life.failed ↦ false
  | _ ↦ true
]

abbrev pub is_mapped : Life → Bool
is_mapped Life.connected = true
is_mapped Life.informing = true
is_mapped _ = false

-- OnDisconnected was reached
abbrev pub has_informed : Life → Bool
has_informed Life.informing = true
has_informed Life.erased = true
has_informed Life.gone = true
has_informed _ = false

pub record Fine (x : Session) : Type 0 where
  pub mapped : x.in_map ≡ is_mapped x.life
  pub settled : x.opening ≡ false → (was_connected x.life ≡ true) ⊎ (x.life ≡ Life.failed)
  pub informed_once : x.informed ≡ one (has_informed x.life)
  pub announced_once : x.announced ≤ one (was_connected x.life)
  pub announced_if : x.opening ≡ false → x.announced ≡ one (was_connected x.life)

Move-Fine : {x : Session} {f : Session → Session} → Move x f → Fine x → Fine (f x)
unfolding register announce opened open_fails inform erase
Move-Fine (Move.registers e) a = ground (arith, a, e)
Move-Fine (Move.announces e f g) a = ground (arith, a, e, f, g)
Move-Fine (Move.opens e f) a = ground (arith, a, e, f)
Move-Fine (Move.open_breaks e) a = ground (arith, a, e)
Move-Fine (Move.informs e) a = ground (arith, a, e)
Move-Fine (Move.erases e) a = ground (arith, a, e)
Move-Fine (Move.is_asked e) a = ground (arith, a, e)

Move-in_flight : {x : Session} {f : Session → Session} → Move x f → in_flight (f x) ≡ in_flight x
unfolding register announce opened open_fails inform erase
Move-in_flight (Move.registers e) = ground (arith, e)
Move-in_flight (Move.announces e f g) = refl
Move-in_flight (Move.opens e f) = refl
Move-in_flight (Move.open_breaks e) = ground (arith, e)
Move-in_flight (Move.informs e) = ground (arith, e)
Move-in_flight (Move.erases e) = ground (arith, e)
Move-in_flight (Move.is_asked e) = refl

Move-opening :
    {x : Session} {f : Session → Session} → Move x f → one (is_opening (f x)) ≤ one (is_opening x)
unfolding register announce opened open_fails inform erase
Move-opening (Move.registers e) = omega arith
Move-opening (Move.announces e f g) = omega arith
Move-opening (Move.opens e f) = ground arith
Move-opening (Move.open_breaks e) = ground arith
Move-opening (Move.informs e) = omega arith
Move-opening (Move.erases e) = omega arith
Move-opening (Move.is_asked e) = omega arith

-- The sessions by themselves.
pub record Sound (s : Server) : Type 0 where
  pub fine : All Fine s.sessions
  pub active : s.active_sessions ≡ count in_flight s.sessions
  pub room : count is_opening s.sessions ≤ s.acceptors_running_count

pub moves-Sound :
    (id : ℕ) (x : Session) (f : Session → Session) (s : Server)
    → Has s id x
    → Move x f
    → Sound s
    → Sound (on_session id f s)
unfolding on_session
moves-Sound id x f s h m a = record {
  fine =
      All-change Fine f id x s.sessions h (Move-Fine m (All-get Fine id x s.sessions h a.fine))
        a.fine;
  active = ground (arith, a, count-change in_flight f id x s.sessions h, Move-in_flight m);
  room = ground (arith, a, count-change is_opening f id x s.sessions h, Move-opening m);
}

pub counts-Sound :
    (id : ℕ) (x : Session) (s : Server)
    → Has s id x
    → x.life ≡ Life.created
    → Sound s
    → Sound (count_up id s)
unfolding count_up on_session count_session
counts-Sound id x s h e a =
    let f = All-get Fine id x s.sessions h a.fine in
    record {
      fine = All-change Fine count_session id x s.sessions h (ground (arith, f, e)) a.fine;
      active = ground (arith, a, e, count-change in_flight count_session id x s.sessions h);
      room = ground (arith, a, e, count-change is_opening count_session id x s.sessions h);
    }

pub releases-Sound :
    (id : ℕ) (x : Session) (s : Server)
    → Has s id x
    → x.life ≡ Life.erased
    → Sound s
    → Sound (count_down id s)
unfolding count_down on_session release
releases-Sound id x s h e a =
    let f = All-get Fine id x s.sessions h a.fine in
    record {
      fine = All-change Fine release id x s.sessions h (ground (arith, f, e)) a.fine;
      active = ground (arith, a, e, count-change in_flight release id x s.sessions h);
      room = ground (arith, a, e, count-change is_opening release id x s.sessions h);
    }

pub accepts-Sound : (s : Server) → HasFree s → Sound s → Sound (accept s)
unfolding accept
accepts-Sound s h a = record {
  fine = All-append Fine s.sessions (new_session ∷ []) a.fine (ground arith, tt);
  active = ground (arith, a, count-append in_flight s.sessions (new_session ∷ []));
  room = ground (arith, a, h, count-append is_opening s.sessions (new_session ∷ []));
}

ask-Fine : (x : Session) → Fine x → Fine (ask x)
ask-Fine x a = ground (arith, a)

pub asks-Sound : (s : Server) → Sound s → Sound (disconnect_all s)
unfolding disconnect_all
asks-Sound s a = record {
  fine = All-map Fine Fine ask s.sessions ask-Fine a.fine;
  active = ground (arith, a, count-map in_flight ask s.sessions (λ x. refl));
  room = ground (arith, a, count-map is_opening ask s.sessions (λ x. refl));
}
