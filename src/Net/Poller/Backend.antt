-- ===== src/Net/Poller/Backend.antt =====
-- What green_turtle/net/io_loop.cc uses of the class `Poller`: the virtual methods of a poller, and
-- what the loop relies on.
use green_turtle.Base.{
  ℕ, ◌<◌, ◌≡◌, refl, sym, ap, ◌∙◌, Bool, true, Option, none, some, List, [], ◌∷◌, ◌⊎◌, ◌==◌,
  if◌then◌else◌, Bool-cases, ==_iff, inl, inr, push_back, IsMap,
}
use green_turtle.Net.EventHandler.{EventHandler}
use green_turtle.Net.Poller.{Registry, set_handler, get_event_handler}

-- What a poller leaves of a handler: all but its place, and what fired.
pub record Keeps (old new : EventHandler) : Type 0 where
  pub fd : new.fd ≡ old.fd
  pub events : new.events ≡ old.events
  pub last_active_time : new.last_active_time ≡ old.last_active_time
  pub event_loop : new.event_loop ≡ old.event_loop

abbrev pub same_handler : (h : EventHandler) → Keeps h h
same_handler h = record { fd = refl; events = refl; last_active_time = refl; event_loop = refl }

-- Two registries that differ in what `Keeps` leaves open alone.
pub record SameRegistry (r s : Registry) : Type 0 where
  pub pairs : s.event_handlers ≡ r.event_handlers
  pub get : (fd : ℕ) → get_event_handler s fd ≡ get_event_handler r fd
  pub keeps : (a : ℕ) → Keeps (r.handlers a) (s.handlers a)

pub SameRegistry-refl : (r : Registry) → SameRegistry r r
SameRegistry-refl r = record {
  pairs = refl;
  get = λ fd. refl;
  keeps = λ a. same_handler (r.handlers a);
}

pub SameRegistry-trans : {r s t : Registry} → SameRegistry r s → SameRegistry s t → SameRegistry r t
SameRegistry-trans x y = record {
  pairs = y.pairs ∙ x.pairs;
  get = λ fd. y.get fd ∙ x.get fd;
  keeps = λ a. record {
    fd = (y.keeps a).fd ∙ (x.keeps a).fd;
    events = (y.keeps a).events ∙ (x.keeps a).events;
    last_active_time = (y.keeps a).last_active_time ∙ (x.keeps a).last_active_time;
    event_loop = (y.keeps a).event_loop ∙ (x.keeps a).event_loop;
  };
}

pub get-set_handler :
    (r : Registry) (h fd : ℕ) (x : EventHandler)
    → get_event_handler (set_handler r h x) fd ≡ get_event_handler r fd
unfolding get_event_handler set_handler
get-set_handler r h fd x = refl

pub pairs-set_handler :
    (r : Registry) (h : ℕ) (x : EventHandler)
    → (set_handler r h x).event_handlers ≡ r.event_handlers
unfolding set_handler
pairs-set_handler r h x = refl

pub field-set_handler {ℓ} :
    {A : Type ℓ} (f : EventHandler → A) (r : Registry) (h : ℕ) (x : EventHandler) (a : ℕ)
    → f x ≡ f (r.handlers h)
    → f ((set_handler r h x).handlers a) ≡ f (r.handlers a)
unfolding set_handler
field-set_handler f r h x a e = elim (Bool-cases (a == h)) [
  | inl here ↦
      let same : a ≡ h = (==_iff a h).0 here in rw here (e ∙ ap (λ z. f (r.handlers z)) (sym same))
  | inr there ↦ rw there
]

-- A handler is changed in its place, or in what fired.
pub SameRegistry-set_handler :
    (r : Registry) (h : ℕ) (x : EventHandler)
    → Keeps (r.handlers h) x
    → SameRegistry r (set_handler r h x)
SameRegistry-set_handler r h x keeps = record {
  pairs = pairs-set_handler r h x;
  get = λ fd. get-set_handler r h fd x;
  keeps = λ a. record {
    fd = field-set_handler (λ z. z.fd) r h x a keeps.fd;
    events = field-set_handler (λ z. z.events) r h x a keeps.events;
    last_active_time = field-set_handler (λ z. z.last_active_time) r h x a keeps.last_active_time;
    event_loop = field-set_handler (λ z. z.event_loop) r h x a keeps.event_loop;
  };
}

-- Every handler of a list is registered.
abbrev pub AllRegistered : Registry → List ℕ → Type 0
AllRegistered r [] = Unit
AllRegistered r (h ∷ hs) = ((fd : ℕ) × (get_event_handler r fd ≡ some h)) × AllRegistered r hs

pub AllRegistered-push_back :
    (r : Registry) (hs : List ℕ) (h : ℕ)
    → AllRegistered r hs
    → (fd : ℕ) × (get_event_handler r fd ≡ some h)
    → AllRegistered r (push_back hs h)
AllRegistered-push_back r [] h all one = (one, tt)
AllRegistered-push_back r (x ∷ hs) h all one = (all.0, AllRegistered-push_back r hs h all.1 one)

-- The methods. `add` is given whether the system took the descriptor; a failed assertion is `none`.
pub record Backend : Type 1 where
  pub State : Type 0
  pub Report : Type 0
  pub registry : State → Registry
  pub put_handler : State → ℕ → EventHandler → State
  pub add : State → ℕ → Bool → Option State
  pub remove : State → ℕ → Option State
  pub poll_once : State → Report → State × List ℕ
  pub IsValid : State → Type 0

module _ (b : Backend) where
  open b use {State, Report, registry, put_handler, add, remove, poll_once, IsValid}

  abbrev pub handler : State → ℕ → EventHandler
  handler p h = (registry p).handlers h

  abbrev pub get : State → ℕ → Option ℕ
  get p fd = get_event_handler (registry p) fd

  -- What a change of one descriptor makes of a poller.
  pub record Changed (p q : State) (fd : ℕ) (v : Option ℕ) : Type 0 where
    pub valid : IsValid q
    pub unique : IsMap (registry p).event_handlers → IsMap (registry q).event_handlers
    pub found : (j : ℕ) → get q j ≡ (if fd == j then v else get p j)
    pub keeps : (a : ℕ) → Keeps (handler p a) (handler q a)

  pub record Polled (p q : State) (fired : List ℕ) : Type 0 where
    pub valid : IsValid q
    pub same : SameRegistry (registry p) (registry q)
    pub known : AllRegistered (registry p) fired

  pub record Laws : Type 0 where
    pub put :
        (p : State) (h : ℕ) (x : EventHandler)
        → registry (put_handler p h x) ≡ set_handler (registry p) h x
    pub put-IsValid :
        (p : State) (h : ℕ) (x : EventHandler)
        → IsValid p
        → x.fd ≡ (handler p h).fd
        → x.poll_idx ≡ (handler p h).poll_idx
        → IsValid (put_handler p h x)
    pub adds :
        (p : State) (h : ℕ)
        → IsValid p
        → 0 < (handler p h).fd
        → get p (handler p h).fd ≡ none
        → (q : State) × (add p h true ≡ some q) × Changed p q (handler p h).fd (some h)
    pub removes :
        (p : State) (h : ℕ)
        → IsValid p
        → 0 < (handler p h).fd
        → (get p (handler p h).fd ≡ none) ⊎ (get p (handler p h).fd ≡ some h)
        → (q : State) × (remove p h ≡ some q) × Changed p q (handler p h).fd none
    pub named : (p : State) (fd h : ℕ) → IsValid p → get p fd ≡ some h → (handler p h).fd ≡ fd
    pub polls :
        (p : State) (report : Report)
        → IsValid p
        → Polled p (poll_once p report).0 (poll_once p report).1
