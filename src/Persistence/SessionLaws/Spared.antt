-- ===== src/Persistence/SessionLaws/Spared.antt =====
-- Rows that a loop over some rows leaves alone.
use auth_core.Prelude.{ℕ, ◌≡◌, Bool, true, false, not, ◌&&◌, List, [], ◌∷◌, arith, ◌==◌, ==-refl}
use auth_core.Prelude.Rows.{Every}
use auth_core.Persistence.SessionLaws.Run.{Row}

-- The ids that no row of a list has.
abbrev pub spared : List Row → ℕ → Bool
spared [] id = true
spared ((f, s) ∷ rs) id = not (id == s.session_id) && spared rs id

not_spared-later :
    (x : ℕ) (r : Row) (rs : List Row) → spared rs x ≡ false → spared (r ∷ rs) x ≡ false
not_spared-later x (f, s) rs e = ground arith

Every-not_spared :
    (r : Row) (rs ts : List Row)
    → Every (λ x. spared rs x.1.session_id ≡ false) ts
    → Every (λ x. spared (r ∷ rs) x.1.session_id ≡ false) ts
Every-not_spared r rs [] h = tt
Every-not_spared r rs (x ∷ ts) h =
    (not_spared-later x.1.session_id r rs h.0, Every-not_spared r rs ts h.1)

pub not_spared_self : (rs : List Row) → Every (λ x. spared rs x.1.session_id ≡ false) rs
not_spared_self [] = tt
not_spared_self ((f, s) ∷ rs) = (rw ==-refl, Every-not_spared (f, s) rs rs (not_spared_self rs))
