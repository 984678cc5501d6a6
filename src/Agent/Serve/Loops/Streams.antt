-- ===== src/Agent/Serve/Loops/Streams.antt =====
-- cmd/netso-agent/main.go: what the loops of `serve` carry between the client and the shell.
use netso.Common.{
  ◌≡◌, ◌⊎◌, refl, sym, ap, ◌∙◌, Bool, true, false, ◌||◌, ◌&&◌, List, [], ◌∷◌, ◌++◌, arith, inl, inr,
  append_assoc, append-[], if_both, subst,
}
use netso.Common.Bytes.{Bytes}
use netso.Secure.Drain.{joined}
use netso.Agent.Serve.Loops.{
  Main, Pump, State, read_text, fail_read, write_text, fail_write, close_next,
}

-- What a loop holds, and whether it has stopped.
abbrev pub held : Main → Bytes
held (Main.writing d) = d
held _ = []

abbrev pub stopped : Main → Bool
stopped Main.reading = false
stopped (Main.writing d) = false
stopped _ = true

abbrev pub pump_held : Pump → Bytes
pump_held (Pump.writing b last) = b
pump_held _ = []

abbrev pub pump_stopped : Pump → Bool
pump_stopped Pump.reading = false
pump_stopped (Pump.writing b last) = false
pump_stopped _ = true

-- What the steps behind the loops have closed.
abbrev pub closed_by : Main → Bool → Bool → Bool
closed_by Main.closing_session shell session = shell
closed_by Main.returned shell session = shell && session
closed_by _ shell session = true

abbrev pub pump_closed_by : Pump → Bool → Bool
pump_closed_by Pump.finished session = session
pump_closed_by _ session = true

-- One direction: what was written is the beginning of what came in; while the loop goes on, the rest is
-- what it holds and what is not yet read.
abbrev pub IsCarried : Bytes → Bytes → Bool → Bytes → Bytes → Type 0
IsCarried came written stop hold unread =
    (rest : Bytes) × (came ≡ written ++ rest) × ((stop ≡ true) ⊎ (rest ≡ hold ++ unread))

pub record IsValid (s : State) : Type 0 where
  pub inward : IsCarried s.arrived s.typed (stopped s.main) (held s.main) (joined s.inbox)
  pub outward : IsCarried s.printed s.sent (pump_stopped s.pump) (pump_held s.pump) s.output
  pub shut : closed_by s.main s.shell_closed s.session_closed ≡ true
  pub pump_shut : pump_closed_by s.pump s.session_closed ≡ true

pub pump_closed : (p : Pump) → pump_closed_by p true ≡ true
pump_closed Pump.reading = refl
pump_closed (Pump.writing b last) = refl
pump_closed Pump.closing = refl
pump_closed Pump.finished = refl

-- A session that is closed keeps what the main loop has closed.
pub main_closed :
    (m : Main) (shell session : Bool)
    → closed_by m shell session ≡ true
    → closed_by m shell true ≡ true
main_closed Main.reading shell session h = refl
main_closed (Main.writing d) shell session h = refl
main_closed Main.closing_shell shell session h = refl
main_closed Main.closing_session shell session h = h
main_closed Main.returned shell session h = ground arith

pub joined-append : (l : List Bytes) (d : Bytes) → joined (l ++ d ∷ []) ≡ joined l ++ d
joined-append [] d = append-[] d
joined-append (p ∷ l) d = ap (λ x. p ++ x) (joined-append l d) ∙ sym (append_assoc p (joined l) d)

-- More comes in behind what is not read.
pub IsCarried-more :
    (came written hold unread d : Bytes) (stop : Bool)
    → IsCarried came written stop hold unread
    → IsCarried (came ++ d) written stop hold (unread ++ d)
IsCarried-more came written hold unread d stop (rest, account, kept) = (
  rest ++ d,
  ap (λ x. x ++ d) account ∙ append_assoc written rest d,
  (elim kept [ inl e ↦ inl e | inr e ↦ inr (ap (λ x. x ++ d) e ∙ append_assoc hold unread d) ]),
)

-- What was held is written.
pub IsCarried-write :
    (came written hold unread : Bytes) (stop : Bool)
    → IsCarried came written false hold unread
    → IsCarried came (written ++ hold) stop [] unread
IsCarried-write came written hold unread stop (rest, account, kept) =
    let same : rest ≡ hold ++ unread = ground (arith, kept) in
    (
      unread,
      account ∙ ap (λ x. written ++ x) same ∙ sym (append_assoc written hold unread),
      inr refl,
    )

-- A loop that stops leaves the rest unwritten.
pub IsCarried-stop :
    (came written hold unread hold' unread' : Bytes) (stop : Bool)
    → IsCarried came written stop hold unread
    → IsCarried came written true hold' unread'
IsCarried-stop came written hold unread hold' unread' stop (rest, account, kept) =
    (rest, account, inl refl)

-- Some of what was not read is held now.
pub IsCarried-read :
    (came written unread hold unread' : Bytes)
    → unread ≡ hold ++ unread'
    → IsCarried came written false [] unread
    → IsCarried came written false hold unread'
IsCarried-read came written unread hold unread' split (rest, account, kept) =
    let same : rest ≡ unread = ground (arith, kept) in (rest, account, inr (same ∙ split))

inward_at :
    (m : Main) (s : State)
    → s.main ≡ m
    → IsValid s
    → IsCarried s.arrived s.typed (stopped m) (held m) (joined s.inbox)
inward_at m s e v =
    subst (λ x. IsCarried s.arrived s.typed (stopped x) (held x) (joined s.inbox)) e v.inward

pub outward_at :
    (p : Pump) (s : State)
    → s.pump ≡ p
    → IsValid s
    → IsCarried s.printed s.sent (pump_stopped p) (pump_held p) s.output
outward_at p s e v =
    subst (λ x. IsCarried s.printed s.sent (pump_stopped x) (pump_held x) s.output) e v.outward

pub read_text-IsValid :
    (m : Main) (l : List Bytes) (s : State)
    → s.main ≡ m
    → s.inbox ≡ l
    → IsValid s
    → IsValid (read_text m l s)
read_text-IsValid Main.reading [] s e i v = v
read_text-IsValid Main.reading ([] ∷ rest) s e i v = record {
  inward =
      IsCarried-read s.arrived s.typed (joined s.inbox) [] (joined rest) (ap joined i)
        (inward_at Main.reading s e v);
  outward = v.outward;
  shut = refl;
  pump_shut = v.pump_shut;
}
read_text-IsValid Main.reading ((c ∷ d) ∷ rest) s e i v = record {
  inward =
      IsCarried-read s.arrived s.typed (joined s.inbox) (c ∷ d) (joined rest) (ap joined i)
        (inward_at Main.reading s e v);
  outward = v.outward;
  shut = refl;
  pump_shut = v.pump_shut;
}
read_text-IsValid (Main.writing d) l s e i v = v
read_text-IsValid Main.closing_shell l s e i v = v
read_text-IsValid Main.closing_session l s e i v = v
read_text-IsValid Main.returned l s e i v = v

-- The main loop stops.
stop-IsValid : (s : State) → IsValid s → IsValid (record s { main = Main.closing_shell })
stop-IsValid s v = record {
  inward =
      IsCarried-stop s.arrived s.typed (held s.main) (joined s.inbox) [] (joined s.inbox)
        (stopped s.main) v.inward;
  outward = v.outward;
  shut = refl;
  pump_shut = v.pump_shut;
}

pub fail_read-IsValid : (m : Main) (s : State) → IsValid s → IsValid (fail_read m s)
fail_read-IsValid Main.reading s v =
    if_both IsValid (s.session_closed || s.broken) _ _ (λ t. stop-IsValid s v) (λ f. v)
fail_read-IsValid (Main.writing d) s v = v
fail_read-IsValid Main.closing_shell s v = v
fail_read-IsValid Main.closing_session s v = v
fail_read-IsValid Main.returned s v = v

pub fail_write-IsValid : (m : Main) (s : State) → IsValid s → IsValid (fail_write m s)
fail_write-IsValid (Main.writing d) s v =
    if_both IsValid (s.shell_closed || s.exited) _ _ (λ t. stop-IsValid s v) (λ f. v)
fail_write-IsValid Main.reading s v = v
fail_write-IsValid Main.closing_shell s v = v
fail_write-IsValid Main.closing_session s v = v
fail_write-IsValid Main.returned s v = v

pub write_text-IsValid : (m : Main) (s : State) → s.main ≡ m → IsValid s → IsValid (write_text m s)
write_text-IsValid (Main.writing d) s e v =
    if_both IsValid (s.shell_closed || s.shell_full) _ _ (λ t. v)
      (λ f. record {
        inward =
            IsCarried-write s.arrived s.typed d (joined s.inbox) false
              (inward_at (Main.writing d) s e v);
        outward = v.outward;
        shut = refl;
        pump_shut = v.pump_shut;
      })
write_text-IsValid Main.reading s e v = v
write_text-IsValid Main.closing_shell s e v = v
write_text-IsValid Main.closing_session s e v = v
write_text-IsValid Main.returned s e v = v

pub close_next-IsValid : (m : Main) (s : State) → s.main ≡ m → IsValid s → IsValid (close_next m s)
close_next-IsValid Main.closing_shell s e v = record {
  inward =
      IsCarried-stop s.arrived s.typed (held s.main) (joined s.inbox) [] (joined s.inbox)
        (stopped s.main) v.inward;
  outward = v.outward;
  shut = refl;
  pump_shut = v.pump_shut;
}
close_next-IsValid Main.closing_session s e v = record {
  inward =
      IsCarried-stop s.arrived s.typed (held s.main) (joined s.inbox) [] (joined s.inbox)
        (stopped s.main) v.inward;
  outward = v.outward;
  shut = let shell = rw e at v.shut in ground arith;
  pump_shut = pump_closed s.pump;
}
close_next-IsValid Main.reading s e v = v
close_next-IsValid (Main.writing d) s e v = v
close_next-IsValid Main.returned s e v = v
