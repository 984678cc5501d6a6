-- ===== src/Hub/Threads/Leaving.antt =====
-- cmd/netso-hub/main.go: what a step of one goroutine leaves to the others.
use netso.Common.{
  ℕ, ◌==◌, ◌≡◌, ◌≢◌, ap, ◌∙◌, false, List, [], ◌∷◌, ◌++◌, length, set, arith, get_elem?-lt,
  get_elem?-set_other, if◌then◌else◌,
}
use netso.Common.Bytes.{Bytes}
use netso.Registry.{Conn}
use netso.Audit.{Session, Handle}
use netso.Hub.Connect.{IsOpen-append}
use netso.Hub.Threads.Roles.{Role, Roles, assign, Leaves, Leaves-assign}

-- The next session is served by the goroutine that starts it.
abbrev pub serve : Handle → ℕ → (Handle → ℕ) → Handle → ℕ
serve h i server h' = if h == h' then i else server h'

pub Leaves-start :
    (j : ℕ) (role : Roles) (server : Handle → ℕ) (ss : List Session) (i : ℕ) (x : Session)
    → Leaves j role role server (serve (length ss) i server) ss (ss ++ x ∷ [])
Leaves-start j role server ss i x = record {
  client = λ c e. e;
  agent = λ c network name e. e;
  closed = λ c e. e;
  serves = λ h (mine, o).
      let earlier = get_elem?-lt ss h o.stored in
      let other : (length ss == h) ≡ false = ground arith in
      (rw other mine, IsOpen-append ss x h o);
}

pub Leaves-end :
    (j : ℕ) (role : Roles) (server : Handle → ℕ) (ss : List Session) (h : Handle) (x : Session)
    → server h ≢ j
    → Leaves j role role server server ss (set ss h x)
Leaves-end j role server ss h x other = record {
  client = λ c e. e;
  agent = λ c network name e. e;
  closed = λ c e. e;
  serves = λ h' (mine, o). (
    mine,
    record {
      session = o.session;
      stored = get_elem?-set_other ss h h' x (λ q. other (ap server q ∙ mine)) ∙ o.stored;
      active = o.active;
    },
  );
}

-- A connection of the i-th goroutine is none that another one holds.
pub Leaves-mine :
    (i j : ℕ) (role : Roles) (server : Handle → ℕ) (ss : List Session) (c : Conn) (r : Role)
    → i ≢ j
    → role c ≡ Role.client i
    → Leaves j role (assign c r role) server server ss ss
Leaves-mine i j role server ss c r differs mine =
    Leaves-assign j role server ss c r (λ e. differs (cc)) (λ network name e. cc) (λ e. cc)

pub Leaves-my_agent :
    (i j : ℕ) (role : Roles) (server : Handle → ℕ) (ss : List Session) (c : Conn) (r : Role)
    {network name : Bytes}
    → i ≢ j
    → role c ≡ Role.agent i network name
    → Leaves j role (assign c r role) server server ss ss
Leaves-my_agent i j role server ss c r differs mine =
    Leaves-assign j role server ss c r (λ e. cc) (λ network' name' e. differs (cc)) (λ e. cc)

pub Leaves-waiting :
    (j : ℕ) (role : Roles) (server : Handle → ℕ) (ss : List Session) (c : Conn) (r : Role)
    {network name : Bytes}
    → role c ≡ Role.waiting network name
    → Leaves j role (assign c r role) server server ss ss
Leaves-waiting j role server ss c r waits =
    Leaves-assign j role server ss c r (λ e. cc) (λ network' name' e. cc) (λ e. cc)
