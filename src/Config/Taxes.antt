-- ===== src/Config/Taxes.antt =====
-- `mergeTaxSetups` of tax.ts: what the merged taxes say when one more layer is added.
use erp_global.Common.{
  ◌≡◌, refl, sym, ap, ap₂, ◌∙◌, Option, none, some, List, [], ◌∷◌, ◌++◌, append-nil,
}
use erp_global.Common.Text.{Text}
use erp_global.Config.Maps.{or_earlier, last_at, Differ, put_all-Differ, last_at-put_all}
use erp_global.Config.Layers.{
  Item, TaxKind, TaxSetup, present, tax_list, last_value, merge_present, merge_tax_setups,
}
use erp_global.Config.Views.{tax_item, tax_default, tax_round}

pub present-append :
    {A : Type 0} (xs ys : List (Option A)) → present (xs ++ ys) ≡ present xs ++ present ys
unfolding present
present-append [] ys = refl
present-append (none ∷ xs) ys = present-append xs ys
present-append (some x ∷ xs) ys = ap (λ r. x ∷ r) (present-append xs ys)

tax_list-append :
    (k : TaxKind) (ps qs : List TaxSetup) (m : List Item)
    → tax_list k (ps ++ qs) m ≡ tax_list k qs (tax_list k ps m)
unfolding tax_list
tax_list-append k [] qs m = refl
tax_list-append k (p ∷ ps) qs m = tax_list-append k ps qs _

tax_list-Differ :
    (k : TaxKind) (ps : List TaxSetup) (m : List Item)
    → Differ Item.key m
    → Differ Item.key (tax_list k ps m)
unfolding tax_list
tax_list-Differ k [] m d = d
tax_list-Differ k (p ∷ ps) m d = tax_list-Differ k ps _ (put_all-Differ Item.key (p.lists k) m d)

pub last_value-append :
    {A : Type 0} (f : A → Option Text) (ps : List A) (p : A) (v : Option Text)
    → last_value f (ps ++ (p ∷ [])) v ≡ or_earlier (f p) (last_value f ps v)
unfolding last_value
last_value-append f [] p v = refl
last_value-append f (q ∷ ps) p v = last_value-append f ps p _

item_present :
    (k : TaxKind) (x : Text) (ps : List TaxSetup)
    → tax_item k x (merge_present ps) ≡ last_at Item.key x (tax_list k ps [])
unfolding tax_item merge_present last_at tax_list
item_present k x [] = refl
item_present k x (p ∷ ps) = refl

default_present :
    (ps : List TaxSetup)
    → tax_default (merge_present ps) ≡ last_value TaxSetup.default_category ps none
unfolding tax_default merge_present last_value
default_present [] = refl
default_present (p ∷ ps) = refl

round_present :
    (ps : List TaxSetup) → tax_round (merge_present ps) ≡ last_value TaxSetup.round_total ps none
unfolding tax_round merge_present last_value
round_present [] = refl
round_present (p ∷ ps) = refl

pub tax_item-merge_tax_setups :
    (k : TaxKind) (x : Text) (ts : List (Option TaxSetup)) (t : Option TaxSetup)
    → tax_item k x (merge_tax_setups (ts ++ (t ∷ [])))
      ≡ or_earlier (tax_item k x t) (tax_item k x (merge_tax_setups ts))
unfolding merge_tax_setups tax_item Differ
tax_item-merge_tax_setups k x ts none =
    ap (λ ps. tax_item k x (merge_present ps)) (present-append ts (none ∷ []) ∙ none_adds ts)
  where
    none_adds : (ts : List (Option TaxSetup)) → present ts ++ present (none ∷ []) ≡ present ts
    none_adds ts = append-nil (present ts)
tax_item-merge_tax_setups k x ts (some t) =
    ap (λ ps. tax_item k x (merge_present ps)) (present-append ts (some t ∷ []))
    ∙ item_present k x (present ts ++ (t ∷ []))
    ∙ ap (last_at Item.key x) (tax_list-append k (present ts) (t ∷ []) [])
    ∙ last_at-put_all Item.key (t.lists k) (tax_list k (present ts) []) x
        (tax_list-Differ k (present ts) [] tt)
    ∙ ap (or_earlier (last_at Item.key x (t.lists k))) (sym (item_present k x (present ts)))

module _ (f : TaxSetup → Option Text) (read : Option TaxSetup → Option Text)
    (of_none : read none ≡ none) (of_some : (t : TaxSetup) → read (some t) ≡ f t)
    (of_present : (ps : List TaxSetup) → read (merge_present ps) ≡ last_value f ps none) where
  last-merge_tax_setups :
      (ts : List (Option TaxSetup)) (t : Option TaxSetup)
      → read (merge_tax_setups (ts ++ (t ∷ []))) ≡ or_earlier (read t) (read (merge_tax_setups ts))
  unfolding merge_tax_setups present
  last-merge_tax_setups ts none =
      ap (λ ps. read (merge_present ps)) (present-append ts (none ∷ []) ∙ append-nil (present ts))
      ∙ ap (λ o. or_earlier o (read (merge_present (present ts)))) (sym of_none)
  last-merge_tax_setups ts (some t) =
      ap (λ ps. read (merge_present ps)) (present-append ts (some t ∷ []))
      ∙ of_present (present ts ++ (t ∷ []))
      ∙ last_value-append f (present ts) t none
      ∙ ap₂ or_earlier (sym (of_some t)) (sym (of_present (present ts)))

pub tax_default-merge_tax_setups :
    (ts : List (Option TaxSetup)) (t : Option TaxSetup)
    → tax_default (merge_tax_setups (ts ++ (t ∷ [])))
      ≡ or_earlier (tax_default t) (tax_default (merge_tax_setups ts))
unfolding tax_default
tax_default-merge_tax_setups =
    last-merge_tax_setups TaxSetup.default_category tax_default refl (λ t. refl) default_present

pub tax_round-merge_tax_setups :
    (ts : List (Option TaxSetup)) (t : Option TaxSetup)
    → tax_round (merge_tax_setups (ts ++ (t ∷ [])))
      ≡ or_earlier (tax_round t) (tax_round (merge_tax_setups ts))
unfolding tax_round
tax_round-merge_tax_setups =
    last-merge_tax_setups TaxSetup.round_total tax_round refl (λ t. refl) round_present
