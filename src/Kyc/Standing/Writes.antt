-- ===== src/Kyc/Standing/Writes.antt =====
-- The transactions of api/internal/domain/kyc/repository.go.
use ctech_account.Common.{
  ◌≡◌, ◌≢◌, refl, sym, ◌∙◌, ap, subst, inl, inr, String, Bool, true, not, ◌&&◌, ◌||◌, Option, none,
  some, [], ◌∷◌, str_eq, str_eq_iff, if◌then◌else◌, Bool-cases, leb, length,
}
use ctech_account.Dynamo.Contract.{write_all}
use ctech_account.Kyc.Model.{User, is_enhanced, is_rejected, max_documents}
use ctech_account.Kyc.Rows.{Key, user_key, cpf_key, Row, user_row, cpf_row, pending_row, same_key}
use ctech_account.Kyc.Items.{user_of, update_user}
use ctech_account.Kyc.Service.{has_required_documents}
use ctech_account.Kyc.Standing.Ladder.{Stage, Climbs, then_to, follows}

abbrev pub View : Type 0
View = Key → Option Row

abbrev pub stage : User → Stage
stage u = record { level = u.level; status = u.status }

abbrev pub cpf_of : Option Row → Option String
cpf_of (some (user_row u)) = some u.cpf
cpf_of _ = none

-- No more documents than are allowed, and of every type where a submission is under review or approved.
abbrev pub has_papers : User → Bool
has_papers u =
    leb (length u.documents) max_documents
    && (not (is_enhanced u.level && not (is_rejected u.status))
        || has_required_documents u.documents)

abbrev pub papers_of : Option Row → Bool
papers_of (some (user_row u)) = has_papers u
papers_of _ = true

-- Every tax id is claimed by the user who has it, every user has the papers of the stage, and the user `j`
-- has climbed from the stage `s`.
pub record Stands (j : String) (s : Stage) (v : View) : Type 0 where
  pub claimed :
      (i c : String) → cpf_of (v (user_key i)) ≡ some c → c ≢ "" → v (cpf_key c) ≡ some (cpf_row i)
  pub documented : (i : String) → papers_of (v (user_key i)) ≡ true
  pub climbed : Climbs s (stage (user_of j (v (user_key j))))

module _ (j : String) (s : Stage) (id : String) (c : Option Row → Bool) (f : User → User)
    (v : View) where
  abbrev pub updated : View
  updated = write_all same_key (update_user id c f ∷ []) v

  abbrev pub before : User
  before = user_of id (v (user_key id))

  update-user :
      (i : String)
      → updated (user_key i) ≡ (if str_eq id i then some (user_row (f before)) else v (user_key i))
  update-user i = refl

  user_of-cpf : (o : Option Row) (x : String) → (user_of id o).cpf ≡ x → x ≢ "" → cpf_of o ≡ some x
  user_of-cpf none x e n = elim (n (sym e)) [ ]
  user_of-cpf (some (user_row u)) x e n = ap some e
  user_of-cpf (some (cpf_row u)) x e n = elim (n (sym e)) [ ]
  user_of-cpf (some (pending_row u)) x e n = elim (n (sym e)) [ ]

  update-claimed :
      Stands j s v
      → (f before).cpf ≡ before.cpf
      → (i x : String) → cpf_of (updated (user_key i)) ≡ some x
      → x ≢ ""
      → v (cpf_key x) ≡ some (cpf_row i)
  update-claimed h e i x k n = elim (Bool-cases (str_eq id i)) [
    | inl b ↦
        let k' : some (f before).cpf ≡ some x =
          subst (λ t. cpf_of (if t then some (user_row (f before)) else v (user_key i)) ≡ some x) b
            k in
        let m : (f before).cpf ≡ x = cc in
        let p : id ≡ i = (str_eq_iff id i).0 b in
        h.claimed id x (user_of-cpf (v (user_key id)) x (sym e ∙ m) n) n
        ∙ ap (λ t. some (cpf_row t)) p
    | inr b ↦
        h.claimed i x
          (subst (λ t. cpf_of (if t then some (user_row (f before)) else v (user_key i)) ≡ some x) b
            k)
          n
  ]

  pub update-climbed :
      Climbs s (stage (user_of j (v (user_key j))))
      → follows (stage before) (stage (f before)) ≡ true
      → Climbs s (stage (user_of j (updated (user_key j))))
  update-climbed h q = elim (Bool-cases (str_eq id j)) [
    | inl b ↦
        let p : id ≡ j = (str_eq_iff id j).0 b in
        let h' : Climbs s (stage before) =
          subst (λ t. Climbs s (stage (user_of t (v (user_key t))))) (sym p) h in
        rw (update-user j, b) (then_to h' q)
    | inr b ↦ rw (update-user j, b) h
  ]

  pub update-documented :
      ((i : String) → papers_of (v (user_key i)) ≡ true)
      → has_papers (f before) ≡ true
      → (i : String) → papers_of (updated (user_key i)) ≡ true
  update-documented h p i = elim (Bool-cases (str_eq id i)) [
    | inl b ↦ rw (update-user i, b) p
    | inr b ↦ rw (update-user i, b) (h i)
  ]

  -- An update that leaves the tax id, has the papers of its stage, and climbs.
  pub update-Stands :
      Stands j s v
      → (f before).cpf ≡ before.cpf
      → has_papers (f before) ≡ true
      → follows (stage before) (stage (f before)) ≡ true
      → Stands j s updated
  update-Stands h e p q = record {
    claimed = update-claimed h e;
    documented = update-documented h.documented p;
    climbed = update-climbed h.climbed q;
  }
