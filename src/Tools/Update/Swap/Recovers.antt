-- ===== src/Tools/Update/Swap/Recovers.antt =====
-- What is at the target after a swap, whatever fails.
use nff_core.Prelude.{
  Bool, true, false, ◌||◌, Option, none, some, if◌then◌else◌, arith, ◌≡◌, ◌⊎◌, refl, sym, subst,
  ◌∙◌, inl, inr, Bool-cases,
}
use nff_core.Tools.Update.Swap.{
  Binary, Places, Faults, exists, drop_new, swap_posix, clear_old, rename_in, rename_back, put_in,
  put_fresh, replace_at, swap_windows, swap,
}

-- A success puts the staged binary in place. A failure leaves the one before in place, or, on Windows and only
-- where renaming it back failed too, leaves it as `.old` and nothing in place.
abbrev pub Outcome : Bool → Faults → Binary → Places → Places × Bool → Type 0
Outcome windows f staged p (q, true) = q.target ≡ some staged
Outcome windows f staged p (q, false) =
    (q.target ≡ p.target)
    ⊎ ((windows ≡ true) × (f.rename_back ≡ true) × (q.target ≡ none) × (q.old ≡ p.target))

drop_new-target : (f : Faults) (p : Places) → (drop_new f p).target ≡ p.target
unfolding drop_new
drop_new-target f p = ground arith

drop_new-old : (f : Faults) (p : Places) → (drop_new f p).old ≡ p.old
unfolding drop_new
drop_new-old f p = ground arith

clear_old-target : (f : Faults) (p : Places) → (clear_old f p).target ≡ p.target
unfolding clear_old
clear_old-target f p = ground arith

clear_old-new : (f : Faults) (p : Places) → (clear_old f p).new ≡ p.new
unfolding clear_old
clear_old-new f p = ground arith

posix-Outcome :
    (f : Faults) (staged : Binary) (p : Places) → Outcome false f staged p (swap_posix f staged p)
unfolding swap_posix
posix-Outcome f staged p = elim (Bool-cases f.copy) [
  | inl e ↦ rw e (inl (drop_new-target f (record p { new = f.partial })))
  | inr e ↦ elim (Bool-cases (f.chmod || f.replace)) [
    | inl t ↦ rw (e, t) (inl (drop_new-target f (record p { new = some staged })))
    | inr t ↦ rw (e, t) refl
  ]
]

-- From places that hold the staged binary as `.new` and the binary before at the target
module _ (f : Faults) (staged : Binary) (p r : Places) (copied : r.new ≡ some staged) where
  away : Binary → Places
  away current = record r { target = none; old = some current }

  back-Outcome :
      (current : Binary)
      → p.target ≡ some current
      → Outcome true f staged p (put_in f (away current, false))
  unfolding put_in rename_back away
  back-Outcome current was = elim (Bool-cases f.rename_back) [
    | inl e ↦ inr (refl, e, drop_new-target f _ ∙ rw e refl, drop_new-old f _ ∙ rw e (sym was))
    | inr e ↦ inl (drop_new-target f _ ∙ rw e (sym was))
  ]

  in_or_back :
      (current : Binary) (fails : Bool)
      → p.target ≡ some current
      → Outcome true f staged p (
          put_in f (
            if fails || false
            then (away current, false)
            else (record (away current) { target = r.new; new = none }, true)))
  unfolding put_in
  in_or_back current true was = back-Outcome current was
  in_or_back current false was = copied

  in_or_not :
      (fails : Bool)
      → r.target ≡ p.target
      → Outcome true f staged p (
          put_fresh f
            (if fails then (r, false) else (record r { target = r.new; new = none }, true)))
  unfolding put_fresh
  in_or_not true same = inl (drop_new-target f r ∙ same)
  in_or_not false same = copied

  nothing_there : (fails : Bool) (o : Option Binary) → o ≡ none → (fails || exists o) ≡ fails
  unfolding exists
  nothing_there true o h = refl
  nothing_there false o h = rw h refl

  replace-Outcome :
      (before : Option Binary)
      → p.target ≡ before
      → r.target ≡ before
      → Outcome true f staged p (replace_at f r before)
  unfolding replace_at rename_in away exists
  replace-Outcome none was is =
      subst
        (λ b.
          Outcome true f staged p (
            put_fresh f
              (if b then (r, false) else (record r { target = r.new; new = none }, true))))
        (sym (nothing_there f.rename_in r.target is)) (in_or_not f.rename_in (is ∙ sym was))
  replace-Outcome (some current) was is = elim (Bool-cases (f.rename_away || exists r.old)) [
    | inl e ↦ rw e (inl (drop_new-target f r ∙ is ∙ sym was))
    | inr e ↦ rw e (in_or_back current f.rename_in was)
  ]

windows-Outcome :
    (f : Faults) (staged : Binary) (p : Places) → Outcome true f staged p (swap_windows f staged p)
unfolding swap_windows
windows-Outcome f staged p =
    let r = clear_old f record p { new = some staged } in
    elim (Bool-cases f.copy) [
      | inl e ↦ rw e (inl refl)
      | inr e ↦ rw e (
          replace-Outcome f staged p r (clear_old-new f record p { new = some staged }) p.target
            refl (clear_old-target f record p { new = some staged }))
    ]

-- Whatever calls of the system fail, a swap that succeeds has put the staged binary in place; one that fails
-- leaves the binary before in place, or, on Windows and only if renaming it back fails, keeps it as `.old`.
pub swap-Outcome :
    (windows : Bool) (f : Faults) (staged : Binary) (p : Places)
    → Outcome windows f staged p (swap windows f staged p)
unfolding swap
swap-Outcome windows f staged p = elim (Bool-cases f.mkdir) [
  | inl e ↦ rw e (inl refl)
  | inr e ↦ rw e (by_system windows)
]
  where
    by_system :
        (w : Bool)
        → Outcome w f staged p (if w then swap_windows f staged p else swap_posix f staged p)
    by_system true = windows-Outcome f staged p
    by_system false = posix-Outcome f staged p
