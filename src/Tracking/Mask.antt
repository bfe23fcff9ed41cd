-- ===== src/Tracking/Mask.antt =====
-- build_mask of tmp/Running.h: the part of the image in which something is looked for.
use libsimple.Base.{
  Bool, true, false, Option, none, some, List, [], ◌∷◌, ◌++◌, length, ltb, if◌then◌else◌,
}
use libsimple.Tracking.Points.{Point}

-- An image that is white or black, with white polygons on it.
pub record Mask : Type 0 where
  pub white : Bool
  pub polygons : List (List Point)

-- cvZero
abbrev pub black : Mask
black = record { white = false; polygons = [] }

-- build_mask_internal: what it returns, and the image. `masked` is the member masked_.
unfoldable pub build_mask_internal : Bool → List Point → Mask → Bool × Mask
build_mask_internal masked points img =
    if ltb 3 (length points)
    then (
      true,
      record {
        white = if masked then img.white else false;
        polygons = (if masked then img.polygons else []) ++ (points ∷ []);
      },
    )
    else (false, img)

-- build_mask with one key, or two, by the points that stand under them: masked_ and the image.
unfoldable pub build_mask : Bool → List Point → Option (List Point) → Bool × Mask
unfolding build_mask_internal
build_mask masked points more =
    let r =
      build_mask_internal masked points
        (if masked then black else record { white = true; polygons = [] }) in
    elim more [ none ↦ r | some points2 ↦ (r.0, (build_mask_internal r.0 points2 r.1).1) ]
