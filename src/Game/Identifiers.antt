-- ===== src/Game/Identifiers.antt =====
-- Identifiers, and the names that the loops of `Game` collect.
use gamespy_emulator.Prelude.{
  ℕ, ◌≡◌, ◌⊎◌, inl, inr, sym, arith, true, false, codes, Bytes, List, [], ◌∷◌, ◌++◌, is_alpha,
  is_alnum, Bool-cases, equal, equal_iff,
}
use gamespy_emulator.Qr.{Map}
use gamespy_emulator.Game.Data.{
  Store, GameKey, MissingKeyPolicy, ignore, add_as_string, Statement, create_table, add_columns,
  insert_row, delete_row, select_rows, Action, sqlite_read, sqlite_select, sqlite_function,
  sqlite_other, Authorizer, Game, after_run, text_key, has_key,
}
use gamespy_emulator.Game.Names.{all_name_chars, is_valid_param_name}
use gamespy_emulator.Game.Servers.{
  add_keys, add_key, connect_loop, Collected, collected, illegal_column, collect, with_params,
}

module _ {ℓ} {A : Type ℓ} where
  abbrev pub All : (A → Type 0) → List A → Type 0
  All P [] = Unit
  All P (x ∷ xs) = P x × All P xs

  pub All-append : (P : A → Type 0) (xs ys : List A) → All P xs → All P ys → All P (xs ++ ys)
  All-append P [] ys h k = k
  All-append P (x ∷ xs) ys h k = (h.0, All-append P xs ys h.1 k)

abbrev IsNameChar : ℕ → Type 0
IsNameChar c = (is_alnum c ≡ true) ⊎ (c ≡ b'_')

-- A letter or underscore, then letters, digits and underscores.
abbrev pub IsIdentifier : Bytes → Type 0
IsIdentifier [] = ⊥
IsIdentifier (c ∷ name) = ((is_alpha c ≡ true) ⊎ (c ≡ b'_')) × All IsNameChar name

all_name_chars-All : (cs : Bytes) → all_name_chars cs ≡ true → All IsNameChar cs
unfolding all_name_chars
all_name_chars-All [] h = tt
all_name_chars-All (c ∷ cs) h = ground (arith, all_name_chars-All cs)

pub is_valid_param_name-IsIdentifier :
    (name : Bytes) → is_valid_param_name name ≡ true → IsIdentifier name
unfolding is_valid_param_name
is_valid_param_name-IsIdentifier [] h = absurd (ground arith)
is_valid_param_name-IsIdentifier (c ∷ name) h = ground (arith, all_name_chars-All (c ∷ name))

-- Reading the table of servers, and the function of LIKE.
abbrev pub IsRead : Action → Bytes → Bytes → Bytes → Type 0
IsRead sqlite_read detail_1 detail_2 db_name =
    (detail_1 ≡ codes "server") × ((db_name ≡ codes "temp") ⊎ (db_name ≡ codes "main"))
IsRead sqlite_select detail_1 detail_2 db_name = Unit
IsRead sqlite_function detail_1 detail_2 db_name = detail_2 ≡ codes "like"
IsRead sqlite_other detail_1 detail_2 db_name = ⊥

-- The authorizer refuses whatever is no reading.
abbrev pub OnlyReads : Authorizer → Type 0
OnlyReads guard =
    (action : Action) (detail_1 detail_2 db_name : Bytes)
    → (guard action detail_1 detail_2 db_name ≡ false) ⊎ IsRead action detail_1 detail_2 db_name

abbrev pub IsSafeStatement : Statement → Type 0
IsSafeStatement (create_table columns) = All (λ c. IsIdentifier c.0) columns
IsSafeStatement (add_columns names) = All IsIdentifier names
IsSafeStatement (insert_row ip port values) = All (λ c. IsIdentifier c.0) values
IsSafeStatement (delete_row ip port) = Unit
IsSafeStatement (select_rows guard sql) = OnlyReads guard

-- The keys that are known are identifiers, and so are the names in what was sent but for queries,
-- which are sent under an authorizer that allows reading alone.
abbrev pub IsSafe : Game → Type 0
IsSafe game = All (λ k. IsIdentifier k.name) game.params × All IsSafeStatement game.sent

pub has_key-IsIdentifier :
    (k : Bytes) (keys : List GameKey)
    → All (λ key. IsIdentifier key.name) keys
    → has_key k keys ≡ true
    → IsIdentifier k
has_key-IsIdentifier k [] h e = absurd (ground arith)
has_key-IsIdentifier k (key ∷ keys) h e = elim (Bool-cases (equal key.name k)) [
  | inl q ↦ rw (sym ((equal_iff key.name k).0 q)) h.0
  | inr q ↦ has_key-IsIdentifier k keys h.1 (ground arith)
]

abbrev pub IsSafeCollected : Collected → Type 0
IsSafeCollected (collected to_add to_insert) =
    All IsIdentifier to_add × All (λ c. IsIdentifier c.0) to_insert
IsSafeCollected illegal_column = Unit

pub collect-IsSafe :
    (policy : MissingKeyPolicy) (params : List GameKey) (entries : Map) (to_add : List Bytes)
    (to_insert : List (Bytes × Bytes))
    → All (λ key. IsIdentifier key.name) params
    → All IsIdentifier to_add
    → All (λ c. IsIdentifier c.0) to_insert
    → IsSafeCollected (collect policy params entries to_add to_insert)
unfolding collect
collect-IsSafe policy params [] to_add to_insert hp ha hi = (ha, hi)
collect-IsSafe ignore params ((key, value) ∷ entries) to_add to_insert hp ha hi =
    elim (Bool-cases (has_key key params)) [
      | inl e ↦ rw e (
          collect-IsSafe ignore params entries to_add (to_insert ++ (key, value) ∷ []) hp ha (
            All-append (λ c. IsIdentifier c.0) to_insert ((key, value) ∷ []) hi
              (has_key-IsIdentifier key params hp e, tt)))
      | inr e ↦ rw e (collect-IsSafe ignore params entries to_add to_insert hp ha hi)
    ]
collect-IsSafe add_as_string params ((key, value) ∷ entries) to_add to_insert hp ha hi =
    elim (Bool-cases (has_key key params)) [
      | inl e ↦ rw e (
          collect-IsSafe add_as_string params entries to_add (to_insert ++ (key, value) ∷ []) hp ha
            (All-append (λ c. IsIdentifier c.0) to_insert ((key, value) ∷ []) hi
              (has_key-IsIdentifier key params hp e, tt)))
      | inr e ↦ elim (Bool-cases (is_valid_param_name key)) [
        | inl v ↦
            rw (e, v)
              (collect-IsSafe add_as_string params entries (to_add ++ key ∷ []) to_insert hp
                (All-append IsIdentifier to_add (key ∷ []) ha
                  (is_valid_param_name-IsIdentifier key v, tt))
                hi)
        | inr v ↦ rw (e, v) tt
      ]
    ]

pub add_keys-IsSafe :
    (columns : List Bytes) (game : Game)
    → All IsIdentifier columns
    → IsSafe game
    → IsSafe (add_keys columns game)
unfolding add_keys
add_keys-IsSafe [] game h s = s
add_keys-IsSafe (c ∷ cs) game h s =
    add_keys-IsSafe cs (add_key c game) h.1
      (All-append (λ k. IsIdentifier k.name) game.params (text_key c ∷ []) s.0 (h.0, tt), s.1)

pub connect_loop-IsSafe :
    (keys : List GameKey) (columns : List (Bytes × Store)) (game : Game)
    → All (λ c. IsIdentifier c.0) columns
    → IsSafe game
    → IsSafe (after_run (connect_loop keys columns game)).0
      × All (λ c. IsIdentifier c.0) (after_run (connect_loop keys columns game)).1
unfolding connect_loop
connect_loop-IsSafe [] columns game h s = (s, h)
connect_loop-IsSafe (key ∷ keys) columns game h s =
    elim (Bool-cases (is_valid_param_name key.name)) [
      | inl e ↦
          let id = is_valid_param_name-IsIdentifier key.name e in
          rw e (
            connect_loop-IsSafe keys (columns ++ (key.name, key.store) ∷ [])
              (with_params (game.params ++ key ∷ []) game)
              (All-append (λ c. IsIdentifier c.0) columns ((key.name, key.store) ∷ []) h (id, tt))
              (All-append (λ k. IsIdentifier k.name) game.params (key ∷ []) s.0 (id, tt), s.1))
      | inr e ↦ rw e (s, h)
    ]
