-- ===== src/Mysql/Tables/Grouping.antt =====
-- `ListIndexes` groups the rows by the name of the index: the loop with its map and its order does
-- what a description without them says.
use flashaccess.Base.{
  Text, text_eq, text_eq_iff, Bool, true, false, not, ◌==◌, Option, none, some, List, [], ◌∷◌, ◌++◌,
  map, keep, find, find-put, append-nil, ◌≡◌, refl, sym, ◌∙◌, ap, arith, Bool-cases, inl, inr,
  if◌then◌else◌,
}
use flashaccess.Mysql.Tables.{
  IndexInfo, IndexRow, Indexes, new_index, with_column, indexed, add_row, in_order, with_index,
}

-- the rows of the index `k`
abbrev pub rows_of : Text → List IndexRow → List IndexRow
rows_of k = keep (λ r. text_eq r.key_name k)

-- the names of the indexes, each at its first row
unfoldable pub index_names : List IndexRow → List Text
index_names [] = []
index_names (r ∷ rs) = r.key_name ∷ keep (λ n. not (text_eq n r.key_name)) (index_names rs)

-- The index `k`: it is of the kind of its first row, and has the columns of all its rows.
abbrev pub group_of : Text → List IndexRow → Option IndexInfo
group_of k [] = none
group_of k (r ∷ rs) = some (record {
  name = k;
  columns = map (λ x. x.column_name) (r ∷ rs);
  unique = r.non_unique == 0;
  type = r.index_type;
})

abbrev pub groups : List IndexRow → List Text → Option (List IndexInfo)
groups rs [] = some []
groups rs (k ∷ ks) = with_index (group_of k (rows_of k rs)) (groups rs ks)

-- the indexes that rows describe
abbrev pub grouped : List IndexRow → Option (List IndexInfo)
grouped rs = groups rs (index_names rs)

pub keep-append {ℓ} :
    {A : Type ℓ} (p : A → Bool) (xs ys : List A) → keep p (xs ++ ys) ≡ keep p xs ++ keep p ys
unfolding keep
keep-append p [] ys = refl
keep-append p (x ∷ xs) ys = elim (Bool-cases (p x)) [
  | inl e ↦ rw e (ap (λ l. x ∷ l) (keep-append p xs ys))
  | inr e ↦ rw e (keep-append p xs ys)
]

pub map-append :
    {A B : Type 0} (f : A → B) (xs ys : List A) → map f (xs ++ ys) ≡ map f xs ++ map f ys
map-append f [] ys = refl
map-append f (x ∷ xs) ys = ap (λ l. f x ∷ l) (map-append f xs ys)

abbrev pub current : Option IndexInfo → IndexRow → IndexInfo
current none r = new_index r
current (some i) r = i

-- one more row of the index
pub group_of-append :
    (k : Text) (rs : List IndexRow) (r : IndexRow)
    → r.key_name ≡ k
    → group_of k (rs ++ r ∷ []) ≡ some (with_column (current (group_of k rs) r) r.column_name)
group_of-append k [] r e =
    ap
      (λ n. some (record {
        name = n;
        columns = r.column_name ∷ [];
        unique = r.non_unique == 0;
        type = r.index_type;
      }))
      (sym e)
group_of-append k (q ∷ rs) r e =
    ap
      (λ cs. some (record {
        name = k;
        columns = q.column_name ∷ cs;
        unique = q.non_unique == 0;
        type = q.index_type;
      }))
      (map-append (λ x. x.column_name) rs (r ∷ []))

-- whether there is a row of the index
abbrev pub names_one : List IndexRow → Bool
names_one [] = false
names_one (_ ∷ _) = true

-- the name of a row, where no row before has it
abbrev pub new_name : Text → List IndexRow → List Text
new_name k rs = if names_one (rows_of k rs) then [] else k ∷ []

pub keep-new_name :
    (q r : IndexRow) (rs : List IndexRow)
    → keep (λ n. not (text_eq n q.key_name)) (new_name r.key_name rs) ≡ new_name r.key_name (q ∷ rs)
unfolding keep
keep-new_name q r rs = elim (Bool-cases (text_eq q.key_name r.key_name)) [
  | inl e ↦ ground (arith, e, text_eq_iff q.key_name r.key_name, text_eq_iff r.key_name q.key_name)
  | inr e ↦ ground (arith, e, text_eq_iff q.key_name r.key_name, text_eq_iff r.key_name q.key_name)
]

pub index_names-append :
    (rs : List IndexRow) (r : IndexRow)
    → index_names (rs ++ r ∷ []) ≡ index_names rs ++ new_name r.key_name rs
unfolding index_names keep
index_names-append [] r = refl
index_names-append (q ∷ rs) r =
    let p : Text → Bool = λ n. not (text_eq n q.key_name) in
    ap (λ l. q.key_name ∷ l)
      (ap (keep p) (index_names-append rs r)
        ∙ keep-append p (index_names rs) (new_name r.key_name rs)
        ∙ ap (λ l. keep p (index_names rs) ++ l) (keep-new_name q r rs))

-- The map and the order of the loop are those of the rows that it has read.
abbrev pub IsIndexed : Indexes → List IndexRow → Type 0
IsIndexed x ps =
    ((k : Text) → find k x.by_name ≡ group_of k (rows_of k ps)) × (x.order ≡ index_names ps)

pub find-indexed :
    (k : Text) (x : Indexes) (r : IndexRow) (o : Option IndexInfo)
    → find k (indexed x r o).by_name ≡ (
        if text_eq r.key_name k
        then some (with_column (current o r) r.column_name)
        else find k x.by_name)
find-indexed k x r none = find-put r.key_name k _ x.by_name
find-indexed k x r (some i) = find-put r.key_name k _ x.by_name

pub order-indexed :
    (x : Indexes) (r : IndexRow) (k : Text) (rs : List IndexRow)
    → (indexed x r (group_of k rs)).order
      ≡ x.order ++ (if names_one rs then [] else r.key_name ∷ [])
order-indexed x r k [] = refl
order-indexed x r k (q ∷ rs) = sym (append-nil x.order)

pub group_of-rows_of :
    (k : Text) (ps : List IndexRow) (r : IndexRow)
    → (if text_eq r.key_name k
        then some
            (with_column (current (group_of r.key_name (rows_of r.key_name ps)) r) r.column_name)
        else group_of k (rows_of k ps))
      ≡ group_of k (rows_of k (ps ++ r ∷ []))
unfolding keep
group_of-rows_of k ps r = elim (Bool-cases (text_eq r.key_name k)) [
  | inl e ↦ rw (keep-append (λ x. text_eq x.key_name k) ps (r ∷ [])) (
      rw e (
        ap (λ j. some (with_column (current (group_of j (rows_of j ps)) r) r.column_name))
          ((text_eq_iff r.key_name k).0 e)
        ∙ sym (group_of-append k (rows_of k ps) r ((text_eq_iff r.key_name k).0 e))))
  | inr e ↦ rw (keep-append (λ x. text_eq x.key_name k) ps (r ∷ [])) (rw e (rw append-nil refl))
]

pub add_row-IsIndexed :
    (x : Indexes) (ps : List IndexRow) (r : IndexRow)
    → IsIndexed x ps
    → IsIndexed (add_row x r) (ps ++ r ∷ [])
add_row-IsIndexed x ps r (f, o) = (
  λ k.
      find-indexed k x r (find r.key_name x.by_name)
      ∙ rw (f r.key_name) (rw (f k) (group_of-rows_of k ps r)),
  rw (f r.key_name)
      (order-indexed x r r.key_name (rows_of r.key_name ps) ∙ rw o (sym (index_names-append ps r))),
)

pub in_order-groups :
    (x : Indexes) (ps : List IndexRow) (ks : List Text)
    → IsIndexed x ps
    → in_order x.by_name ks ≡ groups ps ks
unfolding in_order
in_order-groups x ps [] h = refl
in_order-groups x ps (k ∷ ks) h =
    rw (h.0 k) (ap (with_index (group_of k (rows_of k ps))) (in_order-groups x ps ks h))
