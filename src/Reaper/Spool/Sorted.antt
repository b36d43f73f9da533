-- ===== src/Reaper/Spool/Sorted.antt =====
-- The files of the spool in the order of their names.
use pf.Base.{
  Bool, ◌&&◌, all, all-append, leb, ltb, nat_eq, String, true, ◌||◌, if◌then◌else◌, string_eq,
  pair_eq, contains, List, [], ◌∷◌, ◌++◌, ◌≡◌, refl, ap, ◌∙◌, arith,
}
use pf.Reaper.Spool.{Entry, session, Surroundings, insert_name, sorted_names, forward_each}

-- What is left of a list keeps what holds of all of it.
pub forward_each-all :
    (h : Surroundings) (p : Entry → Bool) (blocked : List (String × String)) (files : List Entry)
    → all p files ≡ true
    → all p (forward_each h blocked files).left ≡ true
unfolding forward_each
forward_each-all h p blocked [] a = refl
forward_each-all h p blocked (f ∷ fs) a = ground (
  arith,
  forward_each-all h p
      (if contains blocked (session f) || h.accepts f then blocked else session f ∷ blocked) fs,
)

abbrev pub is_sorted : List Entry → Bool
is_sorted [] = true
is_sorted (f ∷ fs) = all (λ g. leb f.0 g.0) fs && is_sorted fs

pub forward_each_sorted :
    (h : Surroundings) (blocked : List (String × String)) (files : List Entry)
    → is_sorted files ≡ true
    → is_sorted (forward_each h blocked files).left ≡ true
unfolding forward_each
forward_each_sorted h blocked [] s = refl
forward_each_sorted h blocked (f ∷ fs) s =
    let blocked' =
      if contains blocked (session f) || h.accepts f then blocked else session f ∷ blocked in
    ground
      (arith, forward_each_sorted h blocked' fs, forward_each-all h (λ g. leb f.0 g.0) blocked' fs)

insert_first :
    (f : Entry) (fs : List Entry) → all (λ g. leb f.0 g.0) fs ≡ true → insert_name f fs ≡ f ∷ fs
unfolding insert_name
insert_first f [] a = refl
insert_first f (g ∷ gs) a = ground arith

pub sorted_same : (fs : List Entry) → is_sorted fs ≡ true → sorted_names fs ≡ fs
unfolding sorted_names
sorted_same [] s = refl
sorted_same (f ∷ fs) s =
    ap (insert_name f) (sorted_same fs (ground arith)) ∙ insert_first f fs (ground arith)

pub insert_last :
    (f : Entry) (fs : List Entry)
    → all (λ g. ltb g.0 f.0) fs ≡ true
    → insert_name f fs ≡ fs ++ (f ∷ [])
unfolding insert_name
insert_last f [] a = refl
insert_last f (g ∷ gs) a = ground (arith, insert_last f gs)

pub is_sorted-append :
    (f : Entry) (fs : List Entry)
    → is_sorted fs ≡ true
    → all (λ g. ltb g.0 f.0) fs ≡ true
    → is_sorted (fs ++ (f ∷ [])) ≡ true
is_sorted-append f [] s a = refl
is_sorted-append f (g ∷ gs) s a =
    ground (arith, is_sorted-append f gs, all-append (λ x. leb g.0 x.0) gs (f ∷ []))
