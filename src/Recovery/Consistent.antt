-- ===== src/Recovery/Consistent.antt =====
-- recovery/service.py: when incidents are consistent, and the steps that their table takes.
use ai_hq.Prelude.{
  ℕ, suc, ◌<◌, String, Bool, true, false, none, some, [], ◌∷◌, ◌++◌, ◌≡◌, ◌≢◌, refl, sym, ap, ◌∙◌,
  ◌⊎◌, inl, inr, arith, Bool-cases, Memᴰ,
}
use mathlib.Core.List.Memᴰ
use ai_hq.Prelude.Rows.{update_where}
use ai_hq.Prelude.Rows.Finds.{updated}
use ai_hq.Prelude.Rows.Members.{mem-update_where}
use ai_hq.Tables.Recovery.{
  RecoveryDb, RecoveryIncident, RecoveryIncidentState, suspect, diagnosing, recovery_pending,
  recovering, verifying, resolved, escalated,
}
use ai_hq.Recovery.Incidents.{key_of}

abbrev pub is_ended : RecoveryIncidentState → Bool
is_ended resolved = true
is_ended escalated = true
is_ended _ = false

-- An open incident holds the key of its component; one that has ended holds none.
abbrev pub Keyed : RecoveryIncident → Type 0
Keyed i =
    ((i.active_key ≡ some (key_of i.component)) × (is_ended i.state ≡ false))
    ⊎ ((i.active_key ≡ none) × (is_ended i.state ≡ true))

-- Ids are unique and below the counter, no two incidents hold one key, and keys fit the states.
pub record IsConsistent (db : RecoveryDb) : Type 0 where
  pub fresh : (i : RecoveryIncident) → Memᴰ i db.incidents → i.id < db.next_id
  pub unique :
      (i j : RecoveryIncident) → Memᴰ i db.incidents → Memᴰ j db.incidents → i.id ≡ j.id → i ≡ j
  pub exclusive :
      (i j : RecoveryIncident) (key : String)
      → Memᴰ i db.incidents
      → Memᴰ j db.incidents
      → i.active_key ≡ some key
      → j.active_key ≡ some key
      → i ≡ j
  pub keyed : (i : RecoveryIncident) → Memᴰ i db.incidents → Keyed i

-- The steps that an incident takes; the second argument is where it goes.
abbrev pub allowed_change : RecoveryIncidentState → RecoveryIncidentState → Bool
allowed_change suspect recovering = false
allowed_change suspect _ = true
allowed_change diagnosing suspect = false
allowed_change diagnosing recovering = false
allowed_change diagnosing _ = true
allowed_change recovery_pending suspect = false
allowed_change recovery_pending diagnosing = false
allowed_change recovery_pending _ = true
allowed_change recovering recovering = true
allowed_change recovering verifying = true
allowed_change recovering state = is_ended state
allowed_change verifying verifying = true
allowed_change verifying state = is_ended state
allowed_change resolved state = is_ended state
allowed_change escalated state = is_ended state

-- What one call may do to one row.
pub record IsChange (i j : RecoveryIncident) : Type 0 where
  pub same_id : j.id ≡ i.id
  pub same_component : j.component ≡ i.component
  pub key : (j.active_key ≡ i.active_key) ⊎ (j.active_key ≡ none)
  pub keyed : Keyed i → Keyed j
  pub allowed : allowed_change i.state j.state ≡ true

-- What one call may do to the table: change rows, or add one whose key nobody holds.
pub data IsStep (db db' : RecoveryDb) : Type 0 where
  same : db'.incidents ≡ db.incidents → ((n : ℕ) → n < db.next_id → n < db'.next_id) → IsStep db db'
  changes :
      (p : RecoveryIncident → Bool) (f : RecoveryIncident → RecoveryIncident)
      → db'.incidents ≡ update_where p f db.incidents
      → ((n : ℕ) → n < db.next_id → n < db'.next_id)
      → ((i : RecoveryIncident) → Memᴰ i db.incidents → p i ≡ true → IsChange i (f i))
      → IsStep db db'
  opens :
      (i : RecoveryIncident)
      → db'.incidents ≡ db.incidents ++ i ∷ []
      → db'.next_id ≡ suc db.next_id
      → i.id ≡ db.next_id
      → i.state ≡ suspect
      → i.active_key ≡ some (key_of i.component)
      → ((j : RecoveryIncident) → Memᴰ j db.incidents → j.active_key ≢ i.active_key)
      → IsStep db db'

same-IsConsistent :
    (db db' : RecoveryDb)
    → db'.incidents ≡ db.incidents
    → ((n : ℕ) → n < db.next_id → n < db'.next_id)
    → IsConsistent db
    → IsConsistent db'
same-IsConsistent db db' e up inv = record {
  fresh = λ i m. up i.id (inv.fresh i (rw e at m));
  unique = λ i j m k. inv.unique i j (rw e at m) (rw e at k);
  exclusive = λ i j key m k. inv.exclusive i j key (rw e at m) (rw e at k);
  keyed = λ i m. inv.keyed i (rw e at m);
}

-- Where a row of the changed table comes from, and what it has kept.
IsFrom : RecoveryDb → RecoveryIncident → (RecoveryIncident → RecoveryIncident) → Type 0
IsFrom db j g =
    (i : RecoveryIncident) × Memᴰ i db.incidents
    × (j ≡ g i)
    × (j.id ≡ i.id)
    × ((key : String) → j.active_key ≡ some key → i.active_key ≡ some key)
    × (Keyed i → Keyed j)

update-IsFrom :
    (db db' : RecoveryDb) (p : RecoveryIncident → Bool) (f : RecoveryIncident → RecoveryIncident)
    → db'.incidents ≡ update_where p f db.incidents
    → ((i : RecoveryIncident) → Memᴰ i db.incidents → p i ≡ true → IsChange i (f i))
    → (j : RecoveryIncident) → Memᴰ j db'.incidents
    → IsFrom db j (updated p f)
unfolding IsFrom
update-IsFrom db db' p f e each j m =
    let (i, mi, ej) = mem-update_where p f db.incidents j (rw e at m) in
    elim (Bool-cases (p i)) [
      | inr t ↦
          let same : j ≡ i = ej ∙ (rw t refl) in
          (
            i,
            mi,
            ej,
            ap (λ (x : RecoveryIncident). x.id) same,
            λ key h. sym (ap (λ (x : RecoveryIncident). x.active_key) same) ∙ h,
            λ k. rw same k,
          )
      | inl t ↦
          let same : j ≡ f i = ej ∙ (rw t refl) in
          let c = each i mi t in
          (
            i,
            mi,
            ej,
            ap (λ (x : RecoveryIncident). x.id) same ∙ c.same_id,
            λ key h.
                let g = sym (ap (λ (x : RecoveryIncident). x.active_key) same) ∙ h in
                (elim c.key [ inl q ↦ sym q ∙ g | inr q ↦ cc (q, g) ]),
            λ k. rw same (c.keyed k),
          )
    ]

changes-IsConsistent :
    (db db' : RecoveryDb) (p : RecoveryIncident → Bool) (f : RecoveryIncident → RecoveryIncident)
    → db'.incidents ≡ update_where p f db.incidents
    → ((n : ℕ) → n < db.next_id → n < db'.next_id)
    → ((i : RecoveryIncident) → Memᴰ i db.incidents → p i ≡ true → IsChange i (f i))
    → IsConsistent db
    → IsConsistent db'
unfolding IsFrom
changes-IsConsistent db db' p f e up each inv = record {
  fresh = λ j m.
      let (i, mi, _, id, _, _) = update-IsFrom db db' p f e each j m in
      rw id (up i.id (inv.fresh i mi));
  unique = λ j k m n q.
      let (i, mi, ej, id, _, _) = update-IsFrom db db' p f e each j m in
      let (h, mh, ek, jd, _, _) = update-IsFrom db db' p f e each k n in
      let same = inv.unique i h mi mh (sym id ∙ q ∙ jd) in ej ∙ ap (updated p f) same ∙ sym ek;
  exclusive = λ j k key m n q r.
      let (i, mi, ej, _, old, _) = update-IsFrom db db' p f e each j m in
      let (h, mh, ek, _, old', _) = update-IsFrom db db' p f e each k n in
      let same = inv.exclusive i h key mi mh (old key q) (old' key r) in
      ej ∙ ap (updated p f) same ∙ sym ek;
  keyed = λ j m.
      let (i, mi, _, _, _, keyed) = update-IsFrom db db' p f e each j m in keyed (inv.keyed i mi);
}

-- A row of the grown table is an old one or the new one.
pub grown_cases :
    (db db' : RecoveryDb) (i : RecoveryIncident)
    → db'.incidents ≡ db.incidents ++ i ∷ []
    → (j : RecoveryIncident) → Memᴰ j db'.incidents
    → Memᴰ j db.incidents ⊎ (j ≡ i)
grown_cases db db' i e j m = elim (Memᴰ.append_cases db.incidents (rw e at m)) [
  | inl o ↦ inl o
  | inr (Memᴰ.head q) ↦ inr q
  | inr (Memᴰ.tail n) ↦ absurd (Memᴰ.not-nil n)
]

opens-IsConsistent :
    (db db' : RecoveryDb) (i : RecoveryIncident)
    → db'.incidents ≡ db.incidents ++ i ∷ []
    → db'.next_id ≡ suc db.next_id
    → i.id ≡ db.next_id
    → Keyed i
    → ((j : RecoveryIncident) → Memᴰ j db.incidents → j.active_key ≢ i.active_key)
    → IsConsistent db
    → IsConsistent db'
opens-IsConsistent db db' i e up id keyed apart inv = record {
  fresh = λ j m. elim (grown_cases db db' i e j m) [
    | inl o ↦ let lt = inv.fresh j o in omega (arith, up, lt)
    | inr q ↦ let jd = ap (λ (x : RecoveryIncident). x.id) q in omega (arith, up, jd, id)
  ];
  unique = λ j k m n q. elim (grown_cases db db' i e j m) [
    | inl o ↦ elim (grown_cases db db' i e k n) [
      | inl o' ↦ inv.unique j k o o' q
      | inr s ↦
          let kd = ap (λ (x : RecoveryIncident). x.id) s in
          let lt = inv.fresh j o in absurd (omega (arith, q, kd, id, lt))
    ]
    | inr r ↦ elim (grown_cases db db' i e k n) [
      | inl o' ↦
          let jd = ap (λ (x : RecoveryIncident). x.id) r in
          let lt = inv.fresh k o' in absurd (omega (arith, q, jd, id, lt))
      | inr s ↦ r ∙ sym s
    ]
  ];
  exclusive = λ j k key m n q t. elim (grown_cases db db' i e j m) [
    | inl o ↦ elim (grown_cases db db' i e k n) [
      | inl o' ↦ inv.exclusive j k key o o' q t
      | inr s ↦ absurd (apart j o (q ∙ sym t ∙ ap (λ (x : RecoveryIncident). x.active_key) s))
    ]
    | inr r ↦ elim (grown_cases db db' i e k n) [
      | inl o' ↦ absurd (apart k o' (t ∙ sym q ∙ ap (λ (x : RecoveryIncident). x.active_key) r))
      | inr s ↦ r ∙ sym s
    ]
  ];
  keyed = λ j m. elim (grown_cases db db' i e j m) [ inl o ↦ inv.keyed j o | inr q ↦ rw q keyed ];
}

pub step-IsConsistent : (db db' : RecoveryDb) → IsStep db db' → IsConsistent db → IsConsistent db'
step-IsConsistent db db' (same e up) inv = same-IsConsistent db db' e up inv
step-IsConsistent db db' (changes p f e up each) inv = changes-IsConsistent db db' p f e up each inv
step-IsConsistent db db' (opens i e up id s k apart) inv =
    opens-IsConsistent db db' i e up id (inl (k, ap is_ended s)) apart inv
