-- ===== src/Budget/Evaluate/Order.antt =====
-- The order of the findings, which come from the values of a hash map, changes no violation.
use soroban_upgrade_safeguar.Base.{List, [], ◌∷◌, Bool, count, ◌≡◌, refl, sym, ◌∙◌, arith}
use native.Mathlib.Nat.{ℕ_set}
use mathlib.Core.Logic.{∥∥₁_elim}
use mathlib.Core.List.{Perm, Permᴰ}
use soroban_upgrade_safeguar.Report.{ReportedFinding}
use soroban_upgrade_safeguar.Budget.{BudgetEntry}
use soroban_upgrade_safeguar.Budget.Evaluate.{evaluate}
use soroban_upgrade_safeguar.Budget.Evaluate.Precedence.{charged, exceeded, evaluate-exceeded}

count-permᴰ {ℓ} :
    {A : Type ℓ} (p : A → Bool) {xs ys : List A} → Permᴰ xs ys → count p xs ≡ count p ys
count-permᴰ p Permᴰ.nil = refl
count-permᴰ p (Permᴰ.cons e h) = rw e (ground (arith, count-permᴰ p h))
count-permᴰ p (Permᴰ.swap e d) = rw (e, d) (ground arith)
count-permᴰ p (Permᴰ.trans h k) = count-permᴰ p h ∙ count-permᴰ p k

count-perm {ℓ} : {A : Type ℓ} (p : A → Bool) {xs ys : List A} → Perm xs ys → count p xs ≡ count p ys
count-perm p h = ∥∥₁_elim h (ℕ_set _ _) (count-permᴰ p)

exceeded-perm :
    (entries es : List BudgetEntry) {fs gs : List ReportedFinding}
    → Perm fs gs
    → exceeded entries es fs ≡ exceeded entries es gs
unfolding exceeded charged
exceeded-perm entries [] h = refl
exceeded-perm entries (e ∷ es) h = rw (count-perm _ h) (rw (exceeded-perm entries es h))

-- The violations do not depend on the order of the findings.
pub evaluate-perm :
    (es : List BudgetEntry) {fs gs : List ReportedFinding}
    → Perm fs gs
    → evaluate fs es ≡ evaluate gs es
evaluate-perm es {fs} {gs} h =
    evaluate-exceeded fs es ∙ exceeded-perm es es h ∙ sym (evaluate-exceeded gs es)
