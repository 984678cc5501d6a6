-- ===== src/Hub/Pumps/Order.antt =====
-- cmd/netso-hub/main.go: what each step of the relay keeps.
use netso.Common.{
  ℕ, ◌+◌, Bool, true, false, List, [], ◌∷◌, ◌++◌, ◌≡◌, refl, sym, ap, ◌∙◌, arith, append_assoc,
}
use netso.Hub.Pumps.{
  Frame, End, Wire, Pump, Main, State, start, pump, Action, enabled, perform, finish, is_reading,
  is_holding, some_frame,
}

-- Everything that came from one end is written to the other, in order, but for what the pump holds and
-- what is not read; a pump that has finished leaves a rest that is never written.
abbrev pub IsBalanced : Pump → Wire → Wire → Type 0
IsBalanced Pump.reading src dst = src.arrived ≡ dst.written ++ src.inbox
IsBalanced (Pump.holding f) src dst = src.arrived ≡ dst.written ++ f ∷ src.inbox
IsBalanced Pump.finished src dst = (rest : List Frame) × (src.arrived ≡ dst.written ++ rest)

abbrev pub is_finished : Pump → ℕ
is_finished Pump.finished = 1
is_finished _ = 0

-- How many of the two signals `relay` has taken, and what it has closed.
abbrev pub taken : Main → ℕ
taken Main.first = 0
taken Main.close_client = 1
taken Main.close_agent = 1
taken Main.second = 1
taken Main.returned = 2

abbrev pub client_closed : Main → Bool
client_closed Main.first = false
client_closed Main.close_client = false
client_closed _ = true

abbrev pub agent_closed : Main → Bool
agent_closed Main.second = true
agent_closed Main.returned = true
agent_closed _ = false

pub record IsValid (s : State) : Type 0 where
  pub to_agent : IsBalanced s.from_client s.client s.agent
  pub to_client : IsBalanced s.from_agent s.agent s.client
  pub signals : s.done + taken s.main ≡ is_finished s.from_client + is_finished s.from_agent
  pub client_shut : s.client.closed ≡ client_closed s.main
  pub agent_shut : s.agent.closed ≡ agent_closed s.main

pub start-IsValid : IsValid start
start-IsValid = record {
  to_agent = refl;
  to_client = refl;
  signals = refl;
  client_shut = refl;
  agent_shut = refl;
}

arrive-IsBalanced :
    (p : Pump) (src dst : Wire) (f : Frame)
    → IsBalanced p src dst
    → IsBalanced p (record src { arrived = src.arrived ++ f ∷ []; inbox = src.inbox ++ f ∷ [] }) dst
arrive-IsBalanced Pump.reading src dst f b =
    ap (λ l. l ++ f ∷ []) b ∙ append_assoc dst.written src.inbox (f ∷ [])
arrive-IsBalanced (Pump.holding g) src dst f b =
    ap (λ l. l ++ f ∷ []) b ∙ append_assoc dst.written (g ∷ src.inbox) (f ∷ [])
arrive-IsBalanced Pump.finished src dst f (rest, b) =
    (rest ++ f ∷ [], ap (λ l. l ++ f ∷ []) b ∙ append_assoc dst.written rest (f ∷ []))

-- The pump may stop wherever it stands.
finish-IsBalanced :
    (p : Pump) (src dst : Wire) → IsBalanced p src dst → IsBalanced Pump.finished src dst
finish-IsBalanced Pump.reading src dst b = (src.inbox, b)
finish-IsBalanced (Pump.holding f) src dst b = (f ∷ src.inbox, b)
finish-IsBalanced Pump.finished src dst b = b

write-IsBalanced :
    (src dst : Wire) (f : Frame)
    → IsBalanced (Pump.holding f) src dst
    → IsBalanced Pump.reading src (record dst { written = dst.written ++ f ∷ [] })
write-IsBalanced src dst f b = b ∙ sym (append_assoc dst.written (f ∷ []) src.inbox)

-- Reads, writes and breaks leave the other direction alone, whatever its pump does.
pub other-IsBalanced :
    (p : Pump) (src src' dst dst' : Wire)
    → src'.arrived ≡ src.arrived
    → src'.inbox ≡ src.inbox
    → dst'.written ≡ dst.written
    → IsBalanced p src dst
    → IsBalanced p src' dst'
other-IsBalanced Pump.reading src src' dst dst' a i w b = cc
other-IsBalanced (Pump.holding f) src src' dst dst' a i w b = cc
other-IsBalanced Pump.finished src src' dst dst' a i w (rest, b) = (rest, cc)

pub reading_of : (p : Pump) → is_reading p ≡ true → p ≡ Pump.reading
reading_of Pump.reading h = refl
reading_of (Pump.holding f) h = absurd (ground arith)
reading_of Pump.finished h = absurd (ground arith)

pub holding_of : (p : Pump) → is_holding p ≡ true → (f : Frame) × (p ≡ Pump.holding f)
holding_of Pump.reading h = absurd (ground arith)
holding_of (Pump.holding f) h = (f, refl)
holding_of Pump.finished h = absurd (ground arith)

pub frame_of :
    (l : List Frame) → some_frame l ≡ true → (f : Frame) × (rest : List Frame) × (l ≡ f ∷ rest)
frame_of [] h = absurd (ground arith)
frame_of (f ∷ rest) h = (f, rest, refl)

module _ (s : State) (v : IsValid s) where
  pub arrive-IsValid : (e : End) (f : Frame) → IsValid (perform (Action.arrive e f) s)
  unfolding perform
  arrive-IsValid End.client f = record {
    to_agent = arrive-IsBalanced s.from_client s.client s.agent f v.to_agent;
    to_client =
        other-IsBalanced s.from_agent s.agent s.agent s.client
          (perform (Action.arrive End.client f) s).client refl refl refl v.to_client;
    signals = v.signals;
    client_shut = v.client_shut;
    agent_shut = v.agent_shut;
  }
  arrive-IsValid End.agent f = record {
    to_agent =
        other-IsBalanced s.from_client s.client s.client s.agent
          (perform (Action.arrive End.agent f) s).agent refl refl refl v.to_agent;
    to_client = arrive-IsBalanced s.from_agent s.agent s.client f v.to_client;
    signals = v.signals;
    client_shut = v.client_shut;
    agent_shut = v.agent_shut;
  }

  pub break-IsValid : (e : End) → IsValid (perform (Action.break e) s)
  unfolding perform
  break-IsValid End.client = record {
    to_agent =
        other-IsBalanced s.from_client s.client (record s.client { broken = true }) s.agent s.agent
          refl refl refl v.to_agent;
    to_client =
        other-IsBalanced s.from_agent s.agent s.agent s.client (record s.client { broken = true })
          refl refl refl v.to_client;
    signals = v.signals;
    client_shut = v.client_shut;
    agent_shut = v.agent_shut;
  }
  break-IsValid End.agent = record {
    to_agent =
        other-IsBalanced s.from_client s.client s.client s.agent (record s.agent { broken = true })
          refl refl refl v.to_agent;
    to_client =
        other-IsBalanced s.from_agent s.agent (record s.agent { broken = true }) s.client s.client
          refl refl refl v.to_client;
    signals = v.signals;
    client_shut = v.client_shut;
    agent_shut = v.agent_shut;
  }

  pub read-IsValid :
      (e : End) → enabled (Action.read e) s ≡ true → IsValid (perform (Action.read e) s)
  unfolding perform enabled
  read-IsValid End.client h =
      let p = reading_of s.from_client (ground arith) in
      let (f, rest, i) = frame_of s.client.inbox (ground arith) in
      rw i (record {
        to_agent = rw (p, i) at v.to_agent;
        to_client =
            other-IsBalanced s.from_agent s.agent s.agent s.client
              (record s.client { inbox = rest }) refl refl refl v.to_client;
        signals = rw p at v.signals;
        client_shut = v.client_shut;
        agent_shut = v.agent_shut;
      })
  read-IsValid End.agent h =
      let p = reading_of s.from_agent (ground arith) in
      let (f, rest, i) = frame_of s.agent.inbox (ground arith) in
      rw i (record {
        to_agent =
            other-IsBalanced s.from_client s.client s.client s.agent
              (record s.agent { inbox = rest }) refl refl refl v.to_agent;
        to_client = rw (p, i) at v.to_client;
        signals = rw p at v.signals;
        client_shut = v.client_shut;
        agent_shut = v.agent_shut;
      })

  pub write-IsValid :
      (e : End) → enabled (Action.write e) s ≡ true → IsValid (perform (Action.write e) s)
  unfolding perform enabled
  write-IsValid End.client h =
      let (f, p) = holding_of s.from_client (ground arith) in
      rw p (record {
        to_agent = write-IsBalanced s.client s.agent f (rw p at v.to_agent);
        to_client =
            other-IsBalanced s.from_agent s.agent
              (record s.agent { written = s.agent.written ++ f ∷ [] }) s.client s.client refl refl
              refl v.to_client;
        signals = rw p at v.signals;
        client_shut = v.client_shut;
        agent_shut = v.agent_shut;
      })
  write-IsValid End.agent h =
      let (f, p) = holding_of s.from_agent (ground arith) in
      rw p (record {
        to_agent =
            other-IsBalanced s.from_client s.client
              (record s.client { written = s.client.written ++ f ∷ [] }) s.agent s.agent refl refl
              refl v.to_agent;
        to_client = write-IsBalanced s.agent s.client f (rw p at v.to_client);
        signals = rw p at v.signals;
        client_shut = v.client_shut;
        agent_shut = v.agent_shut;
      })

  pub finish-IsValid : (e : End) → is_finished (pump e s) ≡ 0 → IsValid (finish e s)
  finish-IsValid End.client h = record {
    to_agent = finish-IsBalanced s.from_client s.client s.agent v.to_agent;
    to_client = v.to_client;
    signals = omega (arith, v.signals);
    client_shut = v.client_shut;
    agent_shut = v.agent_shut;
  }
  finish-IsValid End.agent h = record {
    to_agent = v.to_agent;
    to_client = finish-IsBalanced s.from_agent s.agent s.client v.to_client;
    signals = omega (arith, v.signals);
    client_shut = v.client_shut;
    agent_shut = v.agent_shut;
  }
