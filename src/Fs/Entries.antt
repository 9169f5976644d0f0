-- ===== src/Fs/Entries.antt =====
-- The entries of a directory: what dirlookup finds after an entry was written over the first unused one.
use lab7sp25_shelnutt.Base.{
  ℕ, zero, suc, ◌+◌, ◌*◌, ◌≤◌, ◌≡◌, refl, ap, ◌∙◌, sym, ◌⊎◌, true, false, none, some, List, [], ◌∷◌,
  ◌==◌, if◌then◌else◌, length, take, arith, Bool-cases, inl, inr, subst,
}
use lab7sp25_shelnutt.Strings.{head0, tail, strncpy, zero_fill}
use lab7sp25_shelnutt.Strings.Copies.{cstr}
use lab7sp25_shelnutt.Fs.{
  dirsiz, sizeof_dirent, Dirent, is_zero, namecmp, is_named, lookup_from, dirlookup, free_slot,
  write_entry,
}
use lab7sp25_shelnutt.Fs.Names.{key, str_end, str_byte, strncmp-take, take-strncmp}

named_key : (s t : List ℕ) → is_zero (namecmp s t) ≡ true → key s ≡ key t
unfolding namecmp
named_key s t h = strncmp-take dirsiz s t h

pub key_named : (s t : List ℕ) → key s ≡ key t → is_zero (namecmp s t) ≡ true
unfolding namecmp
key_named s t h = take-strncmp dirsiz s t h

-- The name that dirlink writes.
pub take-strncpy :
    (n : ℕ) (s t : List ℕ) → n ≤ length s → take n (cstr (strncpy s t n)) ≡ take n (cstr t)
unfolding strncpy
take-strncpy zero s t l = refl
take-strncpy (suc n) [] t l = absurd (omega arith)
take-strncpy (suc n) (x ∷ s) t l = elim (Bool-cases (head0 t == 0)) [
  | inl y ↦ str_end n (strncpy (x ∷ s) t (suc n)) y ∙ sym (str_end n t y)
  | inr z ↦
      let e : (if head0 t == 0 then zero_fill s n else strncpy s (tail t) n)
          ≡ strncpy s (tail t) n =
        rw z refl in
      str_byte n (strncpy (x ∷ s) t (suc n)) z
      ∙ ap (λ r. head0 t ∷ take n (cstr r)) e
      ∙ ap (λ r. head0 t ∷ r) (take-strncpy n s (tail t) (omega arith))
      ∙ sym (str_byte n t z)
]

-- No two entries in use have the same name.
abbrev pub Distinct : List Dirent → Type 0
Distinct [] = Unit {0}
Distinct (d ∷ des) = ((d.inum ≡ 0) ⊎ (dirlookup d.name des ≡ none)) × Distinct des

abbrev pub Sized : List Dirent → Type 0
Sized [] = Unit {0}
Sized (d ∷ des) = (length d.name ≡ dirsiz) × Sized des

-- The entry goes over the first one that is not in use, or behind all.
abbrev entered : Dirent → Dirent → List Dirent → List Dirent
entered de e des = write_entry (free_slot de des).0 e des

entered_free :
    (de e d : Dirent) (des : List Dirent) → (d.inum == 0) ≡ true → entered de e (d ∷ des) ≡ e ∷ des
unfolding write_entry free_slot
entered_free de e d des y = rw (y, write_entry, free_slot) refl

entered_used :
    (de e d : Dirent) (des : List Dirent)
    → (d.inum == 0) ≡ false
    → entered de e (d ∷ des) ≡ d ∷ entered d e des
unfolding write_entry free_slot
entered_used de e d des z = rw (z, write_entry, free_slot) refl

named_free : (m : List ℕ) (d : Dirent) → (d.inum == 0) ≡ true → is_named m d ≡ false
named_free m d y = rw y refl

lookup_hit :
    (m : List ℕ) (off : ℕ) (d : Dirent) (des : List Dirent)
    → is_named m d ≡ true
    → lookup_from m off (d ∷ des) ≡ some (d.inum, off)
unfolding lookup_from
lookup_hit m off d des y = rw (y, lookup_from) refl

lookup_miss :
    (m : List ℕ) (off : ℕ) (d : Dirent) (des : List Dirent)
    → is_named m d ≡ false
    → lookup_from m off (d ∷ des) ≡ lookup_from m (off + sizeof_dirent) des
unfolding lookup_from
lookup_miss m off d des n = rw (n, lookup_from) refl

pub hit_none : {A : Type 0} {a : A} → some a ≡ none → ⊥
hit_none h = ground arith

-- A name that is missing is that of no entry.
missing_head :
    (m : List ℕ) (off : ℕ) (d : Dirent) (des : List Dirent)
    → lookup_from m off (d ∷ des) ≡ none
    → is_named m d ≡ false
missing_head m off d des h = elim (Bool-cases (is_named m d)) [
  | inl y ↦ absurd (hit_none (sym (lookup_hit m off d des y) ∙ h))
  | inr n ↦ n
]

missing_rest :
    (m : List ℕ) (off : ℕ) (d : Dirent) (des : List Dirent)
    → lookup_from m off (d ∷ des) ≡ none
    → lookup_from m (off + sizeof_dirent) des ≡ none
missing_rest m off d des h = sym (lookup_miss m off d des (missing_head m off d des h)) ∙ h

lookup_none :
    (m : List ℕ) (off off' : ℕ) (des : List Dirent)
    → lookup_from m off des ≡ none
    → lookup_from m off' des ≡ none
unfolding lookup_from
lookup_none m off off' [] h = refl
lookup_none m off off' (d ∷ des) h =
    lookup_miss m off' d des (missing_head m off d des h)
    ∙ lookup_none m (off + sizeof_dirent) (off' + sizeof_dirent) des (missing_rest m off d des h)

pub other_names :
    (m : List ℕ) (de e : Dirent) (off : ℕ) (des : List Dirent)
    → is_named m e ≡ false
    → lookup_from m off (entered de e des) ≡ lookup_from m off des
unfolding lookup_from write_entry free_slot
other_names m de e off [] h = rw (h, lookup_from) refl
other_names m de e off (d ∷ des) h = elim (Bool-cases (d.inum == 0)) [
  | inl y ↦
      ap (lookup_from m off) (entered_free de e d des y)
      ∙ lookup_miss m off e des h
      ∙ sym (lookup_miss m off d des (named_free m d y))
  | inr z ↦ ap (lookup_from m off) (entered_used de e d des z) ∙ elim (Bool-cases (is_named m d)) [
    | inl y ↦ lookup_hit m off d (entered d e des) y ∙ sym (lookup_hit m off d des y)
    | inr n ↦
        lookup_miss m off d (entered d e des) n
        ∙ other_names m d e (off + sizeof_dirent) des h
        ∙ sym (lookup_miss m off d des n)
  ]
]

slot_used :
    (de d : Dirent) (des : List Dirent)
    → (d.inum == 0) ≡ false
    → (free_slot de (d ∷ des)).0 ≡ suc (free_slot d des).0
unfolding free_slot
slot_used de d des z = rw (z, free_slot) refl

slot_free :
    (de d : Dirent) (des : List Dirent) → (d.inum == 0) ≡ true → (free_slot de (d ∷ des)).0 ≡ 0
unfolding free_slot
slot_free de d des y = rw (y, free_slot) refl

pub new_name :
    (m : List ℕ) (de e : Dirent) (off : ℕ) (des : List Dirent)
    → is_named m e ≡ true
    → lookup_from m off des ≡ none
    → lookup_from m off (entered de e des)
      ≡ some (e.inum, off + (free_slot de des).0 * sizeof_dirent)
unfolding lookup_from write_entry free_slot
new_name m de e off [] h g = lookup_hit m off e [] h ∙ ap (λ o. some (e.inum, o)) (omega arith)
new_name m de e off (d ∷ des) h g = elim (Bool-cases (d.inum == 0)) [
  | inl y ↦
      ap (lookup_from m off) (entered_free de e d des y)
      ∙ lookup_hit m off e des h
      ∙ ap (λ o. some (e.inum, o)) (omega (arith, slot_free de d des y))
  | inr z ↦
      ap (lookup_from m off) (entered_used de e d des z)
      ∙ lookup_miss m off d (entered d e des) (missing_head m off d des g)
      ∙ new_name m d e (off + sizeof_dirent) des h (missing_rest m off d des g)
      ∙ ap (λ o. some (e.inum, o)) (omega (arith, slot_used de d des z))
]

named_same : (p q : List ℕ) (d : Dirent) → key p ≡ key q → is_named p d ≡ true → is_named q d ≡ true
named_same p q d k h =
    let (a, b) : ((d.inum == 0) ≡ false) × (is_zero (namecmp p d.name) ≡ true) = ground arith in
    rw (a, key_named q d.name (sym k ∙ named_key p d.name b)) refl

missing_same :
    (p q : List ℕ) (off : ℕ) (des : List Dirent)
    → key p ≡ key q
    → lookup_from p off des ≡ none
    → lookup_from q off des ≡ none
unfolding lookup_from
missing_same p q off [] k h = refl
missing_same p q off (d ∷ des) k h = elim (Bool-cases (is_named q d)) [
  | inl y ↦ let f = sym (missing_head p off d des h) ∙ named_same q p d (sym k) y in ground arith
  | inr n ↦
      lookup_miss q off d des n
      ∙ missing_same p q (off + sizeof_dirent) des k (missing_rest p off d des h)
]

pub named-key : (m : List ℕ) (e : Dirent) → is_named m e ≡ true → key m ≡ key e.name
named-key m e h = named_key m e.name (ground arith)

pub entered-Distinct :
    (m : List ℕ) (de e : Dirent) (des : List Dirent)
    → is_named m e ≡ true
    → dirlookup m des ≡ none
    → Distinct des
    → Distinct (entered de e des)
unfolding dirlookup write_entry free_slot
entered-Distinct m de e [] h g a = (inr refl, tt)
entered-Distinct m de e (d ∷ des) h g (u, a) =
    let k = named-key m e h in
    let r = lookup_none m (0 + sizeof_dirent) 0 des (missing_rest m 0 d des g) in
    elim (Bool-cases (d.inum == 0)) [
      | inl y ↦
          subst Distinct (sym (entered_free de e d des y))
            (inr (missing_same m e.name 0 des k r), a)
      | inr z ↦
          let other : is_named d.name e ≡ false = elim (Bool-cases (is_named d.name e)) [
            | inr n ↦ n
            | inl y ↦
                let q = named-key d.name e y in
                let t : is_named m d ≡ true = rw (z, key_named m d.name (k ∙ sym q)) refl in
                let f = sym (missing_head m 0 d des g) ∙ t in ground arith
          ] in
          subst Distinct (sym (entered_used de e d des z)) (
            elim u [ inl n ↦ inl n | inr w ↦ inr (other_names d.name d e 0 des other ∙ w) ],
            entered-Distinct m d e des h r a,
          )
    ]
