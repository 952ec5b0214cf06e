-- ===== src/Result/Distinct.antt =====
-- `new Map(…)` and `new Set(…)` of what a `Map` or a `Set` held.
use idempotency.Base.{◌≡◌, refl, false, arith, ap, ◌∙◌}
use idempotency.Value.{Value, Items, Pairs}
use idempotency.Result.Decoding.{same_key, set_pair, add_item, map_from, set_from}

-- The value is one with no key of the pairs, or no item, that follows it.
abbrev pub IsNewKey : Value → Pairs → Type 0
IsNewKey k Pairs.no_pair = Unit
IsNewKey k (Pairs.pair l w ps) = (same_key k l ≡ false) × IsNewKey k ps

abbrev pub IsNewItem : Value → Items → Type 0
IsNewItem v Items.nil = Unit
IsNewItem v (Items.item w xs) = (same_key v w ≡ false) × IsNewItem v xs

-- As in a `Map`, and in a `Set`.
abbrev pub HasDistinctKeys : Pairs → Type 0
HasDistinctKeys Pairs.no_pair = Unit
HasDistinctKeys (Pairs.pair k v ps) = IsNewKey k ps × HasDistinctKeys ps

abbrev pub HasDistinctItems : Items → Type 0
HasDistinctItems Items.nil = Unit
HasDistinctItems (Items.item v xs) = IsNewItem v xs × HasDistinctItems xs

append_pairs : Pairs → Pairs → Pairs
append_pairs Pairs.no_pair qs = qs
append_pairs (Pairs.pair k v ps) qs = Pairs.pair k v (append_pairs ps qs)

-- No key held is one of the new ones.
AreNewKeys : Pairs → Pairs → Type 0
AreNewKeys Pairs.no_pair ps = Unit
AreNewKeys (Pairs.pair l w held) ps = IsNewKey l ps × AreNewKeys held ps

set_new :
    (k v : Value) (ps held : Pairs)
    → AreNewKeys held (Pairs.pair k v ps)
    → set_pair k v held ≡ append_pairs held (Pairs.pair k v Pairs.no_pair)
unfolding set_pair append_pairs AreNewKeys
set_new k v ps Pairs.no_pair h = refl
set_new k v ps (Pairs.pair l w held) h = ground (arith, set_new k v ps held h.1)

append_no_pair : (ps : Pairs) → ps ≡ append_pairs ps Pairs.no_pair
unfolding append_pairs
append_no_pair Pairs.no_pair = refl
append_no_pair (Pairs.pair k v ps) = ap (Pairs.pair k v) (append_no_pair ps)

still_new :
    (k v : Value) (ps held : Pairs)
    → IsNewKey k ps
    → AreNewKeys held (Pairs.pair k v ps)
    → AreNewKeys (append_pairs held (Pairs.pair k v Pairs.no_pair)) ps
unfolding append_pairs AreNewKeys
still_new k v ps Pairs.no_pair n h = (n, tt)
still_new k v ps (Pairs.pair l w held) n h = (h.0.1, still_new k v ps held n h.1)

append_pairs_assoc :
    (ps qs rs : Pairs) → append_pairs (append_pairs ps qs) rs ≡ append_pairs ps (append_pairs qs rs)
unfolding append_pairs
append_pairs_assoc Pairs.no_pair qs rs = refl
append_pairs_assoc (Pairs.pair k v ps) qs rs = ap (Pairs.pair k v) (append_pairs_assoc ps qs rs)

map_from_distinct :
    (held ps : Pairs)
    → AreNewKeys held ps
    → HasDistinctKeys ps
    → map_from held ps ≡ append_pairs held ps
unfolding map_from append_pairs AreNewKeys
map_from_distinct held Pairs.no_pair h d = append_no_pair held
map_from_distinct held (Pairs.pair k v ps) h d =
    ap (λ m. map_from m ps) (set_new k v ps held h)
    ∙ map_from_distinct (append_pairs held (Pairs.pair k v Pairs.no_pair)) ps
        (still_new k v ps held d.0 h) d.1
    ∙ append_pairs_assoc held (Pairs.pair k v Pairs.no_pair) ps

-- A `Map` made of the entries of a `Map` has these entries.
pub map_from_lem : (ps : Pairs) → HasDistinctKeys ps → map_from Pairs.no_pair ps ≡ ps
unfolding append_pairs AreNewKeys
map_from_lem ps d = map_from_distinct Pairs.no_pair ps tt d

append_items : Items → Items → Items
append_items Items.nil qs = qs
append_items (Items.item v ps) qs = Items.item v (append_items ps qs)

-- No item held is one of the new ones.
AreNewItems : Items → Items → Type 0
AreNewItems Items.nil ps = Unit
AreNewItems (Items.item w held) ps = IsNewItem w ps × AreNewItems held ps

add_new :
    (v : Value) (ps held : Items)
    → AreNewItems held (Items.item v ps)
    → add_item v held ≡ append_items held (Items.item v Items.nil)
unfolding add_item append_items AreNewItems
add_new v ps Items.nil h = refl
add_new v ps (Items.item w held) h = ground (arith, add_new v ps held h.1)

append_nil : (ps : Items) → ps ≡ append_items ps Items.nil
unfolding append_items
append_nil Items.nil = refl
append_nil (Items.item v ps) = ap (Items.item v) (append_nil ps)

still_new_item :
    (v : Value) (ps held : Items)
    → IsNewItem v ps
    → AreNewItems held (Items.item v ps)
    → AreNewItems (append_items held (Items.item v Items.nil)) ps
unfolding append_items AreNewItems
still_new_item v ps Items.nil n h = (n, tt)
still_new_item v ps (Items.item w held) n h = (h.0.1, still_new_item v ps held n h.1)

append_items_assoc :
    (ps qs rs : Items) → append_items (append_items ps qs) rs ≡ append_items ps (append_items qs rs)
unfolding append_items
append_items_assoc Items.nil qs rs = refl
append_items_assoc (Items.item v ps) qs rs = ap (Items.item v) (append_items_assoc ps qs rs)

set_from_distinct :
    (held ps : Items)
    → AreNewItems held ps
    → HasDistinctItems ps
    → set_from held ps ≡ append_items held ps
unfolding set_from append_items AreNewItems
set_from_distinct held Items.nil h d = append_nil held
set_from_distinct held (Items.item v ps) h d =
    ap (λ m. set_from m ps) (add_new v ps held h)
    ∙ set_from_distinct (append_items held (Items.item v Items.nil)) ps
        (still_new_item v ps held d.0 h) d.1
    ∙ append_items_assoc held (Items.item v Items.nil) ps

-- A `Set` made of the items of a `Set` has these items.
pub set_from_lem : (ps : Items) → HasDistinctItems ps → set_from Items.nil ps ≡ ps
unfolding append_items AreNewItems
set_from_lem ps d = set_from_distinct Items.nil ps tt d
