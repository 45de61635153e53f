-- ===== src/Listeners/Table.antt =====
-- The table `listener_runtime`: what a read by key finds, and what it finds after an UPDATE by key.
use passwall_node.Prelude.{
  subst, String, ◌≡◌, refl, false, some, List, [], ◌∷◌, str_eq, str_eq→eq, str_eq_refl, arith,
  Bool-cases, inl, inr, ◌∙◌, sym,
}
use passwall_node.Listeners.{ListenerRuntime, find_listener, put_listener}

pub find_listener-key :
    (key : String) (rows : List ListenerRuntime) (c : ListenerRuntime)
    → find_listener key rows ≡ some c
    → c.key ≡ key
unfolding find_listener
find_listener-key key [] c h = ground (arith, h)
find_listener-key key (d ∷ rows) c h = elim (Bool-cases (str_eq d.key key)) [
  | inl e ↦ ground (arith, h, str_eq→eq d.key key e)
  | inr e ↦ find_listener-key key rows c (rw e at h)
]

pub find_listener-put_listener :
    (new : ListenerRuntime) (rows : List ListenerRuntime) {c : ListenerRuntime}
    → find_listener new.key rows ≡ some c
    → find_listener new.key (put_listener new rows) ≡ some new
unfolding find_listener put_listener
find_listener-put_listener new [] h = ground (arith, h)
find_listener-put_listener new (d ∷ rows) h = elim (Bool-cases (str_eq d.key new.key)) [
  | inl e ↦ rw e (rw (str_eq_refl new.key) refl)
  | inr e ↦ rw e (rw e (find_listener-put_listener new rows (rw e at h)))
]

pub find_listener-put_listener_other :
    (key : String) (new : ListenerRuntime) (rows : List ListenerRuntime)
    → str_eq new.key key ≡ false
    → find_listener key (put_listener new rows) ≡ find_listener key rows
unfolding find_listener put_listener
find_listener-put_listener_other key new [] h = refl
find_listener-put_listener_other key new (d ∷ rows) h = elim (Bool-cases (str_eq d.key new.key)) [
  | inl e ↦
      (let same = str_eq→eq d.key new.key e in
        rw (e, h) (rw (same, h) (find_listener-put_listener_other key new rows h)))
  | inr e ↦ elim (Bool-cases (str_eq d.key key)) [
    | inl f ↦ rw (e, f) refl
    | inr f ↦ rw (e, f) (find_listener-put_listener_other key new rows h)
  ]
]

pub find_listener-put_listener_key :
    (key : String) (c new : ListenerRuntime) (rows : List ListenerRuntime)
    → find_listener key rows ≡ some c
    → new.key ≡ c.key
    → find_listener key (put_listener new rows) ≡ some new
find_listener-put_listener_key key c new rows f k =
    let same = k ∙ find_listener-key key rows c f in
    subst (λ x. find_listener x (put_listener new rows) ≡ some new) same
      (find_listener-put_listener new rows
        (subst (λ x. find_listener x rows ≡ some c) (sym same) f))
