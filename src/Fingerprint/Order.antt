-- ===== src/Fingerprint/Order.antt =====
-- `canonicalJson` and the order of an object's members, a Map's entries and a Set's items.
use mathlib.Core.Option
use idempotency.Base.{
  ℕ, ◌≡◌, refl, ap, ap₂, ◌∙◌, Bool, true, ◌||◌, List, [], ◌∷◌, ◌++◌, Option, some, ◌≢◌, arith, Text,
  text,
}
use idempotency.Value.{Value, Items, Pairs, Fields}
use idempotency.Fingerprint.{
  text_leb, or_null, insert_sorted, sort_by, write, write_items, write_pairs, write_fields,
  canonical_json, commas, member_texts,
}

text_leb_total : (s t : Text) → text_leb s t || text_leb t s ≡ true
text_leb_total [] t = refl
text_leb_total (c ∷ s) [] = refl
text_leb_total (c ∷ s) (d ∷ t) = ground (arith, text_leb_total s t)

text_leb_antisym : (s t : Text) → text_leb s t ≡ true → text_leb t s ≡ true → s ≡ t
text_leb_antisym [] [] h g = refl
text_leb_antisym [] (d ∷ t) h g = ground arith
text_leb_antisym (c ∷ s) [] h g = ground arith
text_leb_antisym (c ∷ s) (d ∷ t) h g =
    let same : c ≡ d = ground arith in
    let rest : s ≡ t = text_leb_antisym s t (ground arith) (ground arith) in cc

text_leb_trans : (s t u : Text) → text_leb s t ≡ true → text_leb t u ≡ true → text_leb s u ≡ true
text_leb_trans [] t u h g = refl
text_leb_trans (c ∷ s) [] u h g = ground arith
text_leb_trans (c ∷ s) (d ∷ t) [] h g = ground arith
text_leb_trans (c ∷ s) (d ∷ t) (e ∷ u) h g = ground (arith, text_leb_trans s t u)

module _ {A : Type 0} (key : A → Text) where
  -- Two elements can be inserted in either order unless they share a key.
  insert_comm :
      (a b : A) (l : List A)
      → (key a ≡ key b → a ≡ b)
      → insert_sorted key a (insert_sorted key b l) ≡ insert_sorted key b (insert_sorted key a l)
  unfolding insert_sorted
  insert_comm a b [] inj =
      ground (arith, text_leb_total (key a) (key b), text_leb_antisym (key a) (key b), inj)
  insert_comm a b (c ∷ l) inj = ground (
    arith,
    text_leb_total (key a) (key b),
    text_leb_antisym (key a) (key b),
    inj,
    text_leb_trans (key a) (key b) (key c),
    text_leb_trans (key b) (key a) (key c),
    insert_comm a b l inj,
  )

-- The same value up to order: at any depth, an object's members stand in another order, or a Map's
-- entries or a Set's items do.
mutual
  pub data SameValue : Value → Value → Type 0 where
    itself : {v : Value} → SameValue v v
    array : {xs ys : Items} → SameItems xs ys → SameValue (Value.array xs) (Value.array ys)
    object : {fs gs : Fields} → SameFields fs gs → SameValue (Value.object fs) (Value.object gs)
    map_of : {ps qs : Pairs} → SamePairs ps qs → SameValue (Value.map_of ps) (Value.map_of qs)
    set_of : {xs ys : Items} → SameSet xs ys → SameValue (Value.set_of xs) (Value.set_of ys)

  pub data SameItems : Items → Items → Type 0 where
    nil : SameItems Items.nil Items.nil
    item :
        {v w : Value} {xs ys : Items}
        → SameValue v w
        → SameItems xs ys
        → SameItems (Items.item v xs) (Items.item w ys)

  pub data SameSet : Items → Items → Type 0 where
    no_item : SameSet Items.nil Items.nil
    one_more :
        {v w : Value} {xs ys : Items}
        → SameValue v w
        → SameSet xs ys
        → SameSet (Items.item v xs) (Items.item w ys)
    swapped_items :
        {v w : Value} {xs : Items}
        → SameSet (Items.item v (Items.item w xs)) (Items.item w (Items.item v xs))
    then_items : {xs ys zs : Items} → SameSet xs ys → SameSet ys zs → SameSet xs zs

  pub data SamePairs : Pairs → Pairs → Type 0 where
    no_pair : SamePairs Pairs.no_pair Pairs.no_pair
    pair :
        {k l v w : Value} {ps qs : Pairs}
        → SameValue k l
        → SameValue v w
        → SamePairs ps qs
        → SamePairs (Pairs.pair k v ps) (Pairs.pair l w qs)
    swapped_pairs :
        {k l v w : Value} {ps : Pairs}
        → SamePairs (Pairs.pair k v (Pairs.pair l w ps)) (Pairs.pair l w (Pairs.pair k v ps))
    then_pairs : {ps qs rs : Pairs} → SamePairs ps qs → SamePairs qs rs → SamePairs ps rs

  pub data SameFields : Fields → Fields → Type 0 where
    no_field : SameFields Fields.no_field Fields.no_field
    field :
        {k : Text} {v w : Value} {fs gs : Fields}
        → SameValue v w
        → SameFields fs gs
        → SameFields (Fields.field k v fs) (Fields.field k w gs)
    swapped_fields :
        {k l : Text} {v w : Value} {fs : Fields}
        → k ≢ l
        → SameFields
            (Fields.field k v (Fields.field l w fs))
            (Fields.field l w (Fields.field k v fs))
    then_fields : {fs gs hs : Fields} → SameFields fs gs → SameFields gs hs → SameFields fs hs

abbrev sort_texts : List Text → List Text
sort_texts = sort_by (λ s. s)

abbrev sort_members : List (Text × Option Text) → List (Text × Option Text)
sort_members = sort_by (λ m. m.0)

abbrev entry : Text → Text → Text
entry k v = text "[" ++ k ++ text "," ++ v ++ text "]"

module _ (hash_of_bytes : List ℕ → Text) where
  abbrev item_text : Value → Text
  item_text v = or_null (write hash_of_bytes true v)

  mutual
    unfolding write sort_by

    write_lem :
        {v w : Value}
        → SameValue v w
        → (fresh : Bool) → write hash_of_bytes fresh v ≡ write hash_of_bytes fresh w
    write_lem itself fresh = refl
    write_lem (array h) fresh = ap (λ l. some (text "[" ++ commas l ++ text "]")) (items_lem h)
    write_lem (object h) fresh =
        ap (λ l. some (text "{" ++ commas (member_texts l) ++ text "}")) (fields_lem h)
    write_lem (map_of h) fresh =
        ap (λ l. some (text "<map [" ++ commas l ++ text "]>")) (pairs_lem h)
    write_lem (set_of h) fresh = ap (λ l. some (text "<set [" ++ commas l ++ text "]>")) (set_lem h)

    items_lem :
        {xs ys : Items}
        → SameItems xs ys
        → write_items hash_of_bytes xs ≡ write_items hash_of_bytes ys
    items_lem nil = refl
    items_lem (item h g) = ap₂ (λ a l. or_null a ∷ l) (write_lem h true) (items_lem g)

    set_lem :
        {xs ys : Items}
        → SameSet xs ys
        → sort_texts (write_items hash_of_bytes xs) ≡ sort_texts (write_items hash_of_bytes ys)
    set_lem no_item = refl
    set_lem (one_more h g) =
        ap₂ (λ a l. insert_sorted (λ s. s) (or_null a) l) (write_lem h true) (set_lem g)
    set_lem (swapped_items {v} {w} {xs}) =
        insert_comm (λ s. s) (item_text v) (item_text w) (sort_texts (write_items hash_of_bytes xs))
          (λ e. e)
    set_lem (then_items h g) = set_lem h ∙ set_lem g

    pairs_lem :
        {ps qs : Pairs}
        → SamePairs ps qs
        → sort_texts (write_pairs hash_of_bytes ps) ≡ sort_texts (write_pairs hash_of_bytes qs)
    pairs_lem no_pair = refl
    pairs_lem (pair h k g) =
        ap₂ (λ a l. insert_sorted (λ s. s) a l)
          (ap₂ (λ a b. entry (or_null a) (or_null b)) (write_lem h true) (write_lem k true))
          (pairs_lem g)
    pairs_lem (swapped_pairs {k} {l} {v} {w} {ps}) =
        insert_comm (λ s. s) (entry (item_text k) (item_text v)) (entry (item_text l) (item_text w))
          (sort_texts (write_pairs hash_of_bytes ps)) (λ e. e)
    pairs_lem (then_pairs h g) = pairs_lem h ∙ pairs_lem g

    fields_lem :
        {fs gs : Fields}
        → SameFields fs gs
        → sort_members (write_fields hash_of_bytes fs)
          ≡ sort_members (write_fields hash_of_bytes gs)
    fields_lem no_field = refl
    fields_lem (field {k} h g) =
        ap₂ (λ a l. insert_sorted (λ m. m.0) (k, a) l) (write_lem h true) (fields_lem g)
    fields_lem (swapped_fields n) = insert_comm (λ m. m.0) _ _ _ (λ e. absurd (n e))
    fields_lem (then_fields h g) = fields_lem h ∙ fields_lem g

  -- Payloads that are the same up to the order of members, of a Map's entries and of a Set's items,
  -- at any depth, have the same text.
  pub canonical_json-reordered :
      {v w : Value}
      → SameValue v w
      → canonical_json hash_of_bytes v ≡ canonical_json hash_of_bytes w
  unfolding canonical_json
  canonical_json-reordered h = ap (λ o. Option.get_or o []) (write_lem h true)
