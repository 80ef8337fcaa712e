-- ===== src/Net/PollPoller/Indices.antt =====
-- The places of the handlers of poll_poller.cc, when one of them is set.
use green_turtle.Base.{
  ℕ, ◌<◌, ◌≡◌, refl, sym, ap, Bool, true, false, Option, none, some, lt→ltb, ◌==◌, if◌then◌else◌,
  Bool-cases, ==_iff, inl, inr, store, remove, lookup-store, IsMap, remove-IsMap, store-IsMap,
  lookup-remove,
}
use green_turtle.Net.Poller.{Registry, set_handler, set_event_handler, get_event_handler}
use green_turtle.Net.PollPoller.{set_index}

-- `set_index` changes the place of one handler alone.
pub index-set_index :
    (r : Registry) (h a : ℕ) (v : Option ℕ)
    → ((set_index r h v).handlers a).poll_idx ≡ (if a == h then v else (r.handlers a).poll_idx)
unfolding set_index set_handler
index-set_index r h a v = elim (Bool-cases (a == h)) [ inl e ↦ rw e | inr e ↦ rw e ]

pub fd-set_index :
    (r : Registry) (h a : ℕ) (v : Option ℕ) → ((set_index r h v).handlers a).fd ≡ (r.handlers a).fd
unfolding set_index set_handler
fd-set_index r h a v = elim (Bool-cases (a == h)) [
  | inl e ↦ let same : a ≡ h = (==_iff a h).0 e in rw e (ap (λ x. (r.handlers x).fd) (sym same))
  | inr e ↦ rw e
]

pub get-set_index :
    (r : Registry) (h fd : ℕ) (v : Option ℕ)
    → get_event_handler (set_index r h v) fd ≡ get_event_handler r fd
unfolding set_index set_handler get_event_handler
get-set_index r h fd v = refl

-- A registry with one descriptor changed.
abbrev pub changed : Registry → ℕ → Option ℕ → Registry
changed r fd none = record r { event_handlers = remove r.event_handlers fd }
changed r fd (some h) = record r { event_handlers = store r.event_handlers fd h }

pub set_event_handler_lem :
    (r : Registry) (fd : ℕ) (v : Option ℕ)
    → 0 < fd
    → set_event_handler r fd v ≡ some (changed r fd v)
unfolding set_event_handler
set_event_handler_lem r fd none pos = rw (lt→ltb 0 fd pos)
set_event_handler_lem r fd (some h) pos = rw (lt→ltb 0 fd pos)

pub changed-IsMap :
    (r : Registry) (fd : ℕ) (v : Option ℕ)
    → IsMap r.event_handlers
    → IsMap (changed r fd v).event_handlers
changed-IsMap r fd none unique = remove-IsMap r.event_handlers fd unique
changed-IsMap r fd (some h) unique = store-IsMap r.event_handlers fd h unique

pub get-changed :
    (r : Registry) (fd j : ℕ) (v : Option ℕ)
    → get_event_handler (changed r fd v) j ≡ (if fd == j then v else get_event_handler r j)
unfolding get_event_handler
get-changed r fd j none = lookup-remove r.event_handlers fd j
get-changed r fd j (some h) = lookup-store r.event_handlers fd j h

pub handlers-changed :
    (r : Registry) (fd a : ℕ) (v : Option ℕ) → (changed r fd v).handlers a ≡ r.handlers a
handlers-changed r fd a none = refl
handlers-changed r fd a (some h) = refl

pub if_false {ℓ} : {A : Type ℓ} {b : Bool} (x y : A) → b ≡ false → (if b then x else y) ≡ y
if_false x y e = rw e

pub if_true {ℓ} : {A : Type ℓ} {b : Bool} (x y : A) → b ≡ true → (if b then x else y) ≡ x
if_true x y e = rw e
