-- ===== src/Evs/Listing/Adoption.antt =====
-- internal/evs/volume.go: which volume `DiscoverVolume` chooses, and when it chooses none.
use t_cloud_public_csi_drive.Common.{
  sym, ◌∙◌, ◌≡◌, refl, ◌⊎◌, inl, inr, ◌↔◌, ap, ap₂, subst, Bool, true, false, List, [], ◌∷◌, Memᴰ,
  Option, none, some, arith, All, All-Mem, All-of, All-sort, All-of_sort, keep, keep-All,
  All-of_keep, keep-eq-nil, find, find-All, find-none, sort-IsSorted, find-least, text_leb,
  text_leb_total, text_leb_trans, text_leb_refl, text_leb_antisymm, str_eq, eq_iff, index,
}
use t_cloud_public_csi_drive.Common.Int.{pos, ◌≤ℤ◌}
use t_cloud_public_csi_drive.Eff.{ok, err}
use t_cloud_public_csi_drive.Errors.{not_found, conflict, only}
use t_cloud_public_csi_drive.Evs.Types.{Volume, DiscoverVolumeOpts}
use t_cloud_public_csi_drive.Evs.Cloud.{History, actions}
use t_cloud_public_csi_drive.Evs.Volume.{ownership_tag_key, ownership_tag_value}
use t_cloud_public_csi_drive.Evs.Listing.{
  volume_status_available, volume_status_in_use, is_adoptable, id_leb, in_order, choose, adopt,
}

-- What a request asks of a volume that it takes over.
pub record IsCompatible (vol : Volume) (opts : DiscoverVolumeOpts) : Type 0 where
  pub owned : index vol.tags ownership_tag_key ≡ ownership_tag_value
  pub usable : (vol.status ≡ volume_status_available) ⊎ (vol.status ≡ volume_status_in_use)
  pub zone : vol.availability_zone ≡ opts.availability_zone
  pub type : vol.volume_type ≡ opts.volume_type
  pub large : opts.min_size_gib ≤ℤ vol.size
  pub small : pos 1 ≤ℤ opts.max_size_gib → vol.size ≤ℤ opts.max_size_gib

-- The test for adoption passes exactly the compatible volumes.
pub is_adoptable-iff-IsCompatible :
    (vol : Volume) (opts : DiscoverVolumeOpts)
    → (is_adoptable vol opts ≡ true) ↔ IsCompatible vol opts
unfolding is_adoptable
is_adoptable-iff-IsCompatible vol opts = (
  (λ h. ground (
    arith,
    eq_iff (index vol.tags ownership_tag_key) ownership_tag_value,
    eq_iff vol.status volume_status_available,
    eq_iff vol.status volume_status_in_use,
    eq_iff vol.availability_zone opts.availability_zone,
    eq_iff vol.volume_type opts.volume_type,
  )),
  λ h. ground (
    arith,
    eq_iff (index vol.tags ownership_tag_key) ownership_tag_value,
    eq_iff vol.status volume_status_available,
    eq_iff vol.status volume_status_in_use,
    eq_iff vol.availability_zone opts.availability_zone,
    eq_iff vol.volume_type opts.volume_type,
  ),
)

abbrev of_name : DiscoverVolumeOpts → Volume → Bool
of_name opts v = str_eq v.name opts.name

-- The volume that a discovery chooses from a listing: listed, of the name, compatible, and with the
-- least identifier of all such volumes of the listing.
pub record Chosen (opts : DiscoverVolumeOpts) (listing : List Volume) (vol : Volume) : Type 0 where
  pub listed : Memᴰ vol listing
  pub named : vol.name ≡ opts.name
  pub compatible : IsCompatible vol opts
  pub least :
      All
        (λ w. of_name opts w ≡ true → is_adoptable w opts ≡ true → text_leb vol.id w.id ≡ true)
        listing

find-Chosen :
    (opts : DiscoverVolumeOpts) (listing : List Volume) (vol : Volume)
    → find (λ v. is_adoptable v opts) (in_order opts listing) ≡ some vol
    → Chosen opts listing vol
unfolding in_order
find-Chosen opts listing vol e = record {
  listed = found.0.0;
  named = (eq_iff vol.name opts.name).0 found.0.1;
  compatible = (is_adoptable-iff-IsCompatible vol opts).0 found.1;
  least = All-of_keep Least (of_name opts) listing (
      All-of_sort id_leb Least (keep (of_name opts) listing) (
        find-least id_leb (λ v. is_adoptable v opts) (in_order opts listing)
          (λ x. text_leb_refl x.id)
          (sort-IsSorted id_leb (λ x y. text_leb_total x.id y.id)
            (λ x y z. text_leb_trans x.id y.id z.id) (keep (of_name opts) listing))
          e));
}
  where
    Source : Volume → Type 0
    Source w = Memᴰ w listing × (of_name opts w ≡ true)

    Least : Volume → Type 0
    Least w = is_adoptable w opts ≡ true → text_leb vol.id w.id ≡ true

    found : Source vol × (is_adoptable vol opts ≡ true)
    found =
        find-All Source (λ v. is_adoptable v opts) (in_order opts listing) e
          (All-sort id_leb Source (keep (of_name opts) listing)
            (keep-All (λ w. Memᴰ w listing) (of_name opts) listing (All-Mem listing)))

adopt_lem :
    (opts : DiscoverVolumeOpts) (listing named : List Volume) (found : Option Volume)
    → keep (of_name opts) listing ≡ named
    → find (λ v. is_adoptable v opts) (in_order opts listing) ≡ found
    → adopt opts listing ≡ choose named found
unfolding adopt
adopt_lem opts listing named found e f = ap₂ choose e f

-- From any listing a discovery reports that there is no volume of the name exactly where none has it, or
-- chooses, or reports a conflict where volumes of the name are listed and none is compatible. These
-- are its only outcomes.
pub adopt_outcome :
    (opts : DiscoverVolumeOpts) (listing : List Volume) (h : History)
    → ((adopt opts listing h ≡ (err (only not_found), h))
        × All (λ v. of_name opts v ≡ false) listing)
      ⊎ ((vol : Volume) × (adopt opts listing h ≡ (ok vol, h)) × Chosen opts listing vol)
      ⊎ ((adopt opts listing h ≡ (err (only conflict), h))
          × ((v : Volume) × Memᴰ v listing × (of_name opts v ≡ true))
          × All (λ v. of_name opts v ≡ true → is_adoptable v opts ≡ false) listing)
unfolding actions
adopt_outcome opts listing h =
    go (keep (of_name opts) listing) (find (λ v. is_adoptable v opts) (in_order opts listing)) refl
      refl
  where
    Goal : Type 0
    Goal =
        ((adopt opts listing h ≡ (err (only not_found), h))
          × All (λ v. of_name opts v ≡ false) listing)
        ⊎ ((vol : Volume) × (adopt opts listing h ≡ (ok vol, h)) × Chosen opts listing vol)
        ⊎ ((adopt opts listing h ≡ (err (only conflict), h))
            × ((v : Volume) × Memᴰ v listing × (of_name opts v ≡ true))
            × All (λ v. of_name opts v ≡ true → is_adoptable v opts ≡ false) listing)

    Listed : Volume → Type 0
    Listed w = Memᴰ w listing × (of_name opts w ≡ true)

    go :
        (named : List Volume) (found : Option Volume)
        → keep (of_name opts) listing ≡ named
        → find (λ v. is_adoptable v opts) (in_order opts listing) ≡ found
        → Goal
    go [] found e f =
        inl (
          ap (λ m. m h) (adopt_lem opts listing [] found e f),
          keep-eq-nil (of_name opts) listing e,
        )
    go (v ∷ vs) (some vol) e f = inr (
        inl (
          vol,
          ap (λ m. m h) (adopt_lem opts listing (v ∷ vs) (some vol) e f),
          find-Chosen opts listing vol f,
        ))
    go (v ∷ vs) none e f =
        let one : All Listed (v ∷ vs) =
          subst (All Listed) e
            (keep-All (λ w. Memᴰ w listing) (of_name opts) listing (All-Mem listing)) in
        inr (
          inr (
            ap (λ m. m h) (adopt_lem opts listing (v ∷ vs) none e f),
            (v, one.0.0, one.0.1),
            All-of_keep (λ w. is_adoptable w opts ≡ false) (of_name opts) listing
                (All-of_sort id_leb (λ w. is_adoptable w opts ≡ false) (keep (of_name opts) listing)
                  (unfold in_order in
                    find-none (λ v. is_adoptable v opts) (in_order opts listing) f)),
          ))

-- Two volumes that are chosen from listings of the same volumes, of which no two have one identifier,
-- are one.
Chosen-unique :
    (opts : DiscoverVolumeOpts) (xs ys : List Volume) (v w : Volume)
    → All (λ a. Memᴰ a ys) xs
    → All (λ a. Memᴰ a xs) ys
    → ((a b : Volume) → Memᴰ a ys → Memᴰ b ys → a.id ≡ b.id → a ≡ b)
    → Chosen opts xs v
    → Chosen opts ys w
    → v ≡ w
Chosen-unique opts xs ys v w into back distinct c d =
    let there : Memᴰ v ys = All-of (λ a. Memᴰ a ys) into c.listed in
    let here : Memᴰ w xs = All-of (λ a. Memᴰ a xs) back d.listed in
    distinct v w there d.listed (
      text_leb_antisymm v.id w.id
        (All-of Least_v c.least here ((eq_iff w.name opts.name).1 d.named)
          ((is_adoptable-iff-IsCompatible w opts).1 d.compatible))
        (All-of Least_w d.least there ((eq_iff v.name opts.name).1 c.named)
          ((is_adoptable-iff-IsCompatible v opts).1 c.compatible)))
  where
    Least_v : Volume → Type 0
    Least_v u = of_name opts u ≡ true → is_adoptable u opts ≡ true → text_leb v.id u.id ≡ true

    Least_w : Volume → Type 0
    Least_w u = of_name opts u ≡ true → is_adoptable u opts ≡ true → text_leb w.id u.id ≡ true

-- A volume of a listing, against what is said of all volumes of a listing that has it too.
module _ (opts : DiscoverVolumeOpts) (xs ys : List Volume) (into : All (λ a. Memᴰ a ys) xs) where
  unnamed-of :
      (v : Volume) → Memᴰ v xs → of_name opts v ≡ true → ¬ All (λ a. of_name opts a ≡ false) ys
  unnamed-of v there named none_named =
      let hidden =
        All-of (λ a. of_name opts a ≡ false) none_named (All-of (λ a. Memᴰ a ys) into there) in
      cc

  Chosen-of :
      (v : Volume)
      → Chosen opts xs v
      → ¬ All (λ a. of_name opts a ≡ true → is_adoptable a opts ≡ false) ys
  Chosen-of v c unfit =
      let hidden =
        All-of (λ a. of_name opts a ≡ true → is_adoptable a opts ≡ false) unfit
          (All-of (λ a. Memᴰ a ys) into c.listed) ((eq_iff v.name opts.name).1 c.named) in
      let fit = (is_adoptable-iff-IsCompatible v opts).1 c.compatible in cc

-- The outcome of a discovery does not turn on the order of the listing: from two listings of the same
-- volumes, of which no two have one identifier, it is the same volume or the same error.
pub adopt_any_order :
    (opts : DiscoverVolumeOpts) (xs ys : List Volume) (h : History)
    → All (λ a. Memᴰ a ys) xs
    → All (λ a. Memᴰ a xs) ys
    → ((a b : Volume) → Memᴰ a ys → Memᴰ b ys → a.id ≡ b.id → a ≡ b)
    → adopt opts xs h ≡ adopt opts ys h
adopt_any_order opts xs ys h into back distinct =
    go (adopt_outcome opts xs h) (adopt_outcome opts ys h)
  where
    Outcome : List Volume → Type 0
    Outcome l =
        ((adopt opts l h ≡ (err (only not_found), h)) × All (λ v. of_name opts v ≡ false) l)
        ⊎ ((vol : Volume) × (adopt opts l h ≡ (ok vol, h)) × Chosen opts l vol)
        ⊎ ((adopt opts l h ≡ (err (only conflict), h))
            × ((v : Volume) × Memᴰ v l × (of_name opts v ≡ true))
            × All (λ v. of_name opts v ≡ true → is_adoptable v opts ≡ false) l)

    go : Outcome xs → Outcome ys → adopt opts xs h ≡ adopt opts ys h
    go (inl (e, _)) (inl (f, _)) = e ∙ sym f
    go (inl (e, unnamed)) (inr (inl (w, f, d))) =
        absurd (unnamed-of opts ys xs back w d.listed ((eq_iff w.name opts.name).1 d.named) unnamed)
    go (inl (e, unnamed)) (inr (inr (f, (w, there, named), _))) =
        absurd (unnamed-of opts ys xs back w there named unnamed)
    go (inr (inl (v, e, c))) (inl (f, unnamed)) =
        absurd (unnamed-of opts xs ys into v c.listed ((eq_iff v.name opts.name).1 c.named) unnamed)
    go (inr (inl (v, e, c))) (inr (inl (w, f, d))) =
        e ∙ ap (λ u. (ok u, h)) (Chosen-unique opts xs ys v w into back distinct c d) ∙ sym f
    go (inr (inl (v, e, c))) (inr (inr (f, _, unfit))) =
        absurd (Chosen-of opts xs ys into v c unfit)
    go (inr (inr (e, (v, there, named), _))) (inl (f, unnamed)) =
        absurd (unnamed-of opts xs ys into v there named unnamed)
    go (inr (inr (e, _, unfit))) (inr (inl (w, f, d))) =
        absurd (Chosen-of opts ys xs back w d unfit)
    go (inr (inr (e, _, _))) (inr (inr (f, _, _))) = e ∙ sym f
