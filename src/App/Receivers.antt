-- ===== src/App/Receivers.antt =====
-- The receivers of src/app.rs: every id stands once, and a receiver is found by its id.
use cosmicdrop.Base.{
  ℕ, false, if◌then◌else◌, List, [], ◌∷◌, Option, none, some, ◌≡◌, refl, ap, ◌∙◌, All, arith,
  bytes_eq, bytes_eq_iff, bytes_eq→eq, Bool-cases, inl, inr,
}
use cosmicdrop.App.{BrowserEvent, found, removed}
use cosmicdrop.App.Events.{put_receiver, remove_receiver, drain_browser}
use cosmicdrop.App.Transfers.{find_receiver}
use cosmicdrop.Client.{Receiver}

abbrev pub HasOtherId : Receiver → Receiver → Type 0
HasOtherId r s = bytes_eq r.id s.id ≡ false

abbrev pub HasUniqueIds : List Receiver → Type 0
HasUniqueIds [] = Unit {0}
HasUniqueIds (r ∷ receivers) = All (HasOtherId r) receivers × HasUniqueIds receivers

put_receiver-All :
    (P : Receiver → Type 0) (x : Receiver) (rs : List Receiver)
    → P x
    → All P rs
    → All P (put_receiver x rs)
unfolding put_receiver
put_receiver-All P x [] h k = (h, tt)
put_receiver-All P x (r ∷ rs) h k = elim (Bool-cases (bytes_eq r.id x.id)) [
  | inl e ↦ rw e (h, k.1)
  | inr e ↦ rw e (k.0, put_receiver-All P x rs h k.1)
]

put_receiver-HasUniqueIds :
    (x : Receiver) (rs : List Receiver) → HasUniqueIds rs → HasUniqueIds (put_receiver x rs)
unfolding put_receiver
put_receiver-HasUniqueIds x [] h = (tt, tt)
put_receiver-HasUniqueIds x (r ∷ rs) h = elim (Bool-cases (bytes_eq r.id x.id)) [
  | inl e ↦ rw e (rw (bytes_eq→eq r.id x.id e) at h.0, h.1)
  | inr e ↦ rw e (put_receiver-All (HasOtherId r) x rs e h.0, put_receiver-HasUniqueIds x rs h.1)
]

remove_receiver-All :
    (P : Receiver → Type 0) (id : List ℕ) (rs : List Receiver)
    → All P rs
    → All P (remove_receiver id rs)
unfolding remove_receiver
remove_receiver-All P id [] k = tt
remove_receiver-All P id (r ∷ rs) k = elim (Bool-cases (bytes_eq r.id id)) [
  | inl e ↦ rw e (remove_receiver-All P id rs k.1)
  | inr e ↦ rw e (k.0, remove_receiver-All P id rs k.1)
]

remove_receiver-HasUniqueIds :
    (id : List ℕ) (rs : List Receiver) → HasUniqueIds rs → HasUniqueIds (remove_receiver id rs)
unfolding remove_receiver
remove_receiver-HasUniqueIds id [] h = tt
remove_receiver-HasUniqueIds id (r ∷ rs) h = elim (Bool-cases (bytes_eq r.id id)) [
  | inl e ↦ rw e (remove_receiver-HasUniqueIds id rs h.1)
  | inr e ↦
      rw e (remove_receiver-All (HasOtherId r) id rs h.0, remove_receiver-HasUniqueIds id rs h.1)
]

pub drain_browser-HasUniqueIds :
    (events : List BrowserEvent) (rs : List Receiver)
    → HasUniqueIds rs
    → HasUniqueIds (drain_browser rs events)
unfolding drain_browser
drain_browser-HasUniqueIds [] rs h = h
drain_browser-HasUniqueIds (found x ∷ events) rs h =
    drain_browser-HasUniqueIds events (put_receiver x rs) (put_receiver-HasUniqueIds x rs h)
drain_browser-HasUniqueIds (removed id ∷ events) rs h =
    drain_browser-HasUniqueIds events (remove_receiver id rs) (remove_receiver-HasUniqueIds id rs h)

-- The receiver that the events leave under an id, from the one that was there.
unfoldable pub last_known : List ℕ → Option Receiver → List BrowserEvent → Option Receiver
last_known id known [] = known
last_known id known (found x ∷ events) =
    last_known id (if bytes_eq x.id id then some x else known) events
last_known id known (removed gone ∷ events) =
    last_known id (if bytes_eq gone id then none else known) events

find_receiver-put_receiver :
    (id : List ℕ) (x : Receiver) (rs : List Receiver)
    → find_receiver id (put_receiver x rs)
      ≡ (if bytes_eq x.id id then some x else find_receiver id rs)
unfolding find_receiver put_receiver
find_receiver-put_receiver id x [] = refl
find_receiver-put_receiver id x (r ∷ rs) = elim (Bool-cases (bytes_eq r.id x.id)) [
  | inl e ↦ rw (e, bytes_eq→eq r.id x.id e) (ground arith)
  | inr e ↦ rw e (
      ground (
        arith,
        find_receiver-put_receiver id x rs,
        bytes_eq_iff r.id x.id,
        bytes_eq_iff r.id id,
        bytes_eq_iff x.id id,
      ))
]

find_receiver-remove_receiver :
    (id gone : List ℕ) (rs : List Receiver)
    → find_receiver id (remove_receiver gone rs)
      ≡ (if bytes_eq gone id then none else find_receiver id rs)
unfolding find_receiver remove_receiver
find_receiver-remove_receiver id gone [] = ground arith
find_receiver-remove_receiver id gone (r ∷ rs) = ground (
  arith,
  find_receiver-remove_receiver id gone rs,
  bytes_eq_iff r.id gone,
  bytes_eq_iff r.id id,
  bytes_eq_iff gone id,
)

pub find_receiver-drain_browser :
    (id : List ℕ) (events : List BrowserEvent) (rs : List Receiver)
    → find_receiver id (drain_browser rs events) ≡ last_known id (find_receiver id rs) events
unfolding drain_browser last_known
find_receiver-drain_browser id [] rs = refl
find_receiver-drain_browser id (found x ∷ events) rs =
    find_receiver-drain_browser id events (put_receiver x rs)
    ∙ ap (λ k. last_known id k events) (find_receiver-put_receiver id x rs)
find_receiver-drain_browser id (removed gone ∷ events) rs =
    find_receiver-drain_browser id events (remove_receiver gone rs)
    ∙ ap (λ k. last_known id k events) (find_receiver-remove_receiver id gone rs)
