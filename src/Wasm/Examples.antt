-- ===== src/Wasm/Examples.antt =====
-- A page that writes down what it is told, and an agent that sends two texts in the clear.
use netso.Common.{
  ℕ, length, ◌≤◌, ◌⊎◌, suc, ◌≡◌, refl, ap, sym, ◌∙◌, Bool, if◌then◌else◌, true, none, some, List,
  [], ◌∷◌, ◌++◌, arith,
}
use netso.Common.Bytes.{Bytes, codes}
use netso.Common.Result.{Result, ok, err}
use netso.Base64.{decode_public}
use netso.Secure.{Keypair, MsgConn, Noise, Session}
use netso.Secure
use netso.Secure.Pinning.{IsPinning}
use netso.Secure.Drain.{Gives, ended, given, IsOutput}
use netso.Wasm.{Status, Page, data_of, connect, establish, read_all}
use netso.Wasm.Outcome.{IsPage, IsOutcome, connect-IsOutcome}
use netso.Wasm.Sending.{capacity, Action, start, step, run}
use netso.Wasm.Sending.Bound.{texts, IsSome, Overflows, sends-bounded}
use netso.Wasm.Reading.{IsApart, read_all-Gives}

pub record World : Type 0 where
  pub incoming : List Bytes
  pub statuses : List Status
  pub closes : ℕ
  pub output : Bytes

abbrev take_message : List Bytes → World → World × Result Bytes Bytes
take_message [] w = (w, err (codes "closed"))
take_message (m ∷ rest) w = (record w { incoming = rest }, ok m)

abbrev keys : Keypair
keys = record { private = codes "private"; public = codes "public" }

abbrev page : Page World
page = record {
  on_status = some (λ st w. record w { statuses = w.statuses ++ st ∷ [] });
  on_close = some (λ w. record w { closes = suc w.closes });
  on_data = some (λ p w. record w { output = w.output ++ p });
  dial = λ url w. (w, none);
  generate = λ w. (w, ok keys);
  conn = record {
    write_msg = λ m w. (w, none);
    read_msg = λ w. take_message w.incoming w;
    close = λ w. w;
  };
}

-- A state is whether it initiates, and the peer's key, which a responder reads.
abbrev plain : Noise
plain = record {
  State = Bool × Bytes;
  Cipher = ℕ;
  new = λ cfg. ok (cfg.initiator, cfg.peer_static);
  write_message = λ hs. ok (hs, codes "hello", none, none);
  read_message = λ hs m. ok ((hs.0, if hs.0 then hs.1 else m), some 0, some 1);
  peer_static = λ hs. hs.1;
  encrypt = λ n p. ok (suc n, p);
  decrypt = λ n p. ok (suc n, p);
}

abbrev Initiates : Bool × Bytes → Type 0
Initiates hs = hs.0 ≡ true

plain-IsPinning : IsPinning plain Initiates
plain-IsPinning = record {
  made = λ kp pin hs e.
      let same : (true, pin) ≡ hs = cc in (ap (λ x. x.0) (sym same), ap (λ x. x.1) (sym same));
  wrote = λ hs done begun e.
      let same : hs ≡ done.0 = cc in (ap (λ x. x.0) (sym same) ∙ begun, ap (λ x. x.1) (sym same));
  read = λ hs m done begun e.
      let same : (hs.0, if hs.0 then hs.1 else m) ≡ done.0 = cc in
      ap (λ x. x.1) (sym same) ∙ rw begun refl;
}

abbrev seen : World → List Status × ℕ
seen w = (w.statuses, w.closes)

take-seen : (l : List Bytes) (w : World) → seen (take_message l w).0 ≡ seen w
take-seen [] w = refl
take-seen (m ∷ rest) w = refl

page-IsPage : IsPage page plain seen
page-IsPage = record {
  tells = λ st w. record w { statuses = w.statuses ++ st ∷ [] };
  ends = λ w. record w { closes = suc w.closes };
  told = refl;
  ended = refl;
  tells_seen = λ st w. refl;
  ends_seen = λ w. refl;
  dial_seen = λ url w. refl;
  generate_seen = λ w. refl;
  conn_seen = record {
    reads = λ w. take-seen w.incoming w;
    writes = λ m w. refl;
    closes = λ w. refl;
  };
}

abbrev world : World
world = record { incoming = codes "welcome" ∷ []; statuses = []; closes = 0; output = [] }

connect-IsOutcome_example :
    IsOutcome page plain seen
      ([], 0)
      (decode_public (codes "QUJD"))
      (connect page plain (codes "ws://hub") (codes "QUJD") world)
connect-IsOutcome_example =
    connect-IsOutcome page plain seen Initiates (codes "ws://hub") (codes "QUJD") world page-IsPage
      plain-IsPinning

abbrev connected : World
connected = record {
  incoming = codes "a.txt" ∷ codes "b.txt" ∷ [];
  statuses = [];
  closes = 0;
  output = [];
}

abbrev established : Session ℕ
established = record { send = 0; recv = 1; peer_static = codes "ABC" }

read-output :
    (sess : Session ℕ) (l : List Bytes) (w : World)
    → (Secure.read page.conn plain sess (record w { incoming = l })).1.output ≡ w.output
unfolding Secure.read
read-output sess [] w = refl
read-output sess (m ∷ l) w = refl

page-IsApart : IsApart page plain seen (λ w. w.output)
page-IsApart = record {
  data_seen = λ p w. refl;
  status_handed = λ st w. refl;
  closed_handed = λ w. refl;
}

page-IsOutput : IsOutput page.conn plain (data_of page plain) (λ w. w.output)
page-IsOutput = record { prints = λ p w. refl; reads = λ sess w. read-output sess w.incoming w }

gives :
    Gives page.conn plain
      (data_of page plain)
      established
      connected
      (codes "a.txt" ∷ codes "b.txt" ∷ [])
unfolding Secure.read
gives = given refl (given refl (ended (codes "closed") refl))

read_all-Gives_example :
    ((read_all page plain 3 established connected).0 ≡ true)
    × ((read_all page plain 3 established connected).1.output ≡ codes "a.txtb.txt")
    × (seen (read_all page plain 3 established connected).1 ≡ (Status.session_closed ∷ [], 1))
read_all-Gives_example =
    read_all-Gives page plain seen (λ w. w.output) 3 established connected
      (codes "a.txt" ∷ codes "b.txt" ∷ []) page-IsPage page-IsApart page-IsOutput gives
      (omega arith)

-- A page that sends before there is a session, and again while a text is written.
abbrev sending : List Action
sending =
    Action.sends (some (codes "ls"))
    ∷ Action.connects (codes "ws://hub") (codes "a2V5")
    ∷ Action.sends none
    ∷ Action.takes
    ∷ Action.sends (some (codes "exit"))
    ∷ Action.writes
    ∷ Action.closes
    ∷ []

sends-bounded_example :
    let s = run page plain sending (start page plain world) in
    (length s.channel ≤ capacity)
    × IsSome (s.taken ++ s.channel) (texts sending)
    × ((s.taken ++ s.channel ≡ texts sending)
        ⊎ Overflows page plain sending (start page plain world))
sends-bounded_example = sends-bounded page plain sending world

test_sending :
    (run page plain sending (start page plain world)).taken
      ++ (run page plain sending (start page plain world)).channel
    ≡ codes "ls" ∷ codes "exit" ∷ []
unfolding run step connect establish Secure.handshake Secure.write Secure.session_of Secure.initiate
    decode_public netso.Base64.decode_quads netso.Base64.skip_breaks netso.Base64.value_of
    netso.Common.Bytes.str_eq
test_sending = refl
