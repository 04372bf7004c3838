-- ===== src/Domain/Coverage/Merge.antt =====
-- src/domain.rs: what `CoverageV1::merge` gathers, in one order or another.
use mathlib.Core.List.{Permᴰ, append_assoc}
use mathlib.Core.List.Permᴰ
use previously_on.Prelude.{
  String, List, [], ◌∷◌, ◌++◌, ◌≡◌, refl, sym, ap, ◌∙◌, arith, sort_dedup-Perm,
}
use previously_on.Domain.Coverage.{
  CoverageStatus, complete, worst, CoverageV1, Gathered, merge_from, merge,
}

worst_comm : (a b : CoverageStatus) → worst a b ≡ worst b a
unfolding worst
worst_comm a b = ground arith

worst_assoc : (a b c : CoverageStatus) → worst (worst a b) c ≡ worst a (worst b c)
unfolding worst
worst_assoc a b c = ground arith

abbrev gather : Gathered → CoverageV1 → Gathered
gather acc item = record {
  status = worst acc.status item.status;
  captured = acc.captured ++ item.captured;
  missing = acc.missing ++ item.missing;
  warnings = acc.warnings ++ item.warnings;
}

-- The same up to the order of what was gathered.
record IsLike (a b : Gathered) : Type 0 where
  pub status : a.status ≡ b.status
  pub captured : Permᴰ a.captured b.captured
  pub missing : Permᴰ a.missing b.missing
  pub warnings : Permᴰ a.warnings b.warnings

IsLike-gather :
    (a b : Gathered) (item : CoverageV1) → IsLike a b → IsLike (gather a item) (gather b item)
IsLike-gather a b item h = record {
  status = ap (λ s. worst s item.status) h.status;
  captured = Permᴰ.append_right item.captured h.captured;
  missing = Permᴰ.append_right item.missing h.missing;
  warnings = Permᴰ.append_right item.warnings h.warnings;
}

Perm-append_swap : (xs ys zs : List String) → Permᴰ ((xs ++ ys) ++ zs) ((xs ++ zs) ++ ys)
Perm-append_swap xs ys zs =
    rw (append_assoc xs ys zs, append_assoc xs zs ys)
      (Permᴰ.append_left xs (Permᴰ.append_comm ys zs))

IsLike-gather_swap :
    (a : Gathered) (i j : CoverageV1) → IsLike (gather (gather a i) j) (gather (gather a j) i)
IsLike-gather_swap a i j = record {
  status =
      worst_assoc a.status i.status j.status
      ∙ ap (λ s. worst a.status s) (worst_comm i.status j.status)
      ∙ sym (worst_assoc a.status j.status i.status);
  captured = Perm-append_swap a.captured i.captured j.captured;
  missing = Perm-append_swap a.missing i.missing j.missing;
  warnings = Perm-append_swap a.warnings i.warnings j.warnings;
}

IsLike-trans : (a b c : Gathered) → IsLike a b → IsLike b c → IsLike a c
IsLike-trans a b c h k = record {
  status = h.status ∙ k.status;
  captured = Permᴰ.trans h.captured k.captured;
  missing = Permᴰ.trans h.missing k.missing;
  warnings = Permᴰ.trans h.warnings k.warnings;
}

IsLike-refl : (a : Gathered) → IsLike a a
IsLike-refl a = record {
  status = refl;
  captured = Permᴰ.refl a.captured;
  missing = Permᴰ.refl a.missing;
  warnings = Permᴰ.refl a.warnings;
}

merge_from-IsLike :
    (a b : Gathered) (items : List CoverageV1)
    → IsLike a b
    → IsLike (merge_from a items) (merge_from b items)
unfolding merge_from
merge_from-IsLike a b [] h = h
merge_from-IsLike a b (item ∷ items) h =
    merge_from-IsLike (gather a item) (gather b item) items (IsLike-gather a b item h)

merge_from-Perm :
    {items others : List CoverageV1}
    → Permᴰ items others
    → (a : Gathered) → IsLike (merge_from a items) (merge_from a others)
unfolding merge_from
merge_from-Perm Permᴰ.nil a = IsLike-refl a
merge_from-Perm (Permᴰ.cons {a = i} {l₁ = l} e h) a = rw (sym e) (merge_from-Perm h (gather a i))
merge_from-Perm (Permᴰ.swap {a = i} {b = j} {l = l} e f) a =
    rw (sym e, sym f)
      (merge_from-IsLike (gather (gather a i) j) (gather (gather a j) i) l
        (IsLike-gather_swap a i j))
merge_from-Perm (Permᴰ.trans {l₁} {l₂} {l₃} h k) a =
    IsLike-trans (merge_from a l₁) (merge_from a l₂) (merge_from a l₃) (merge_from-Perm h a)
      (merge_from-Perm k a)

-- The merge of captures does not depend on the order in which they are given.
pub merge-Perm : {items others : List CoverageV1} → Permᴰ items others → merge items ≡ merge others
unfolding merge
merge-Perm h =
    let like =
      merge_from-Perm h
        (record { status = complete; captured = []; missing = []; warnings = [] }) in
    ground (
      arith,
      like.status,
      sort_dedup-Perm like.captured,
      sort_dedup-Perm like.missing,
      sort_dedup-Perm like.warnings,
    )
