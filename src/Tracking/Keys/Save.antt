-- ===== src/Tracking/Keys/Save.antt =====
-- The end of a calibration in tmp/TeacherRunning.cpp: what is kept of it, and what is looked at.
use libsimple.Base.{
  ◌≤◌, ◌<◌, ◌≡◌, ◌≢◌, refl, ap, ap₂, ◌∙◌, Bool, true, false, none, some, List, [], ◌∷◌, ◌++◌, Bytes,
  length, ltb, if◌then◌else◌, arith,
}
use libsimple.Clib.Text.{codes}
use libsimple.Outcome.{done, ◌>>=◌}
use libsimple.Tracking.Config.{KvConfig}
use libsimple.Tracking.Keys.{
  data_key, points_at, key_calibrating_handle, save_calibration, new_mask, with_mask, load_roi,
}
use libsimple.Tracking.Mask.{Mask, black, build_mask}
use libsimple.Tracking.Points.{Point, print_points, read_points}
use libsimple.Tracking.Points.RoundTrip.{AllInt, scan_points-print_points}
use libsimple.Tracking.Tracker.{running, calibrating, calibrating2, Tracker}

two_three : codes "calibration_data2" ≢ codes "calibration_data3"
two_three e = absurd (ground (arith, e))

one_two : codes "calibration_data" ≢ codes "calibration_data2"
one_two e = absurd (ground (arith, e))

one_three : codes "calibration_data" ≢ codes "calibration_data3"
one_three e = absurd (ground (arith, e))

read_printed : (ps : List Point) → AllInt ps → read_points (some (print_points ps)) ≡ ps
unfolding read_points
read_printed ps h = scan_points-print_points ps h

-- The polygons of a mask for an area of at least four points, and another one or none.
abbrev pub outlines : List Point → List Point → Mask
outlines ps more = record {
  white = false;
  polygons = ps ∷ (if ltb 3 (length more) then more ∷ [] else []);
}

build_mask-outlines :
    (masked : Bool) (ps more : List Point)
    → 4 ≤ length ps
    → build_mask masked ps (some more) ≡ (true, outlines ps more)
unfolding build_mask
build_mask-outlines masked ps more h = ground arith

build_mask-black : (ps : List Point) → length ps < 4 → build_mask true ps none ≡ (false, black)
unfolding build_mask
build_mask-black ps h = ground arith

-- A calibration of the first line that has been kept: it is what load_roi finds under its key, with the
-- points of the second line behind it, and it is what is looked at.
pub record IsSaved {C : Type 0} (kv : KvConfig C) (t t' : Tracker C) : Type 0 where
  pub read_back :
      load_roi kv t'.cfg ≡ t.calibrations ++ points_at kv t.cfg (codes "calibration_data3")
  pub shown :
      t'.img_mask ≡ some (outlines t.calibrations (points_at kv t.cfg (codes "calibration_data3")))
  pub in_use : t'.enable_mask ≡ true
  pub back : t'.state ≡ running

module _ {C : Type 0} (kv : KvConfig C) where
  abbrev saved_in : C → Bytes → Bytes → C
  saved_in cfg k text = kv.save_as (kv.set_value cfg k text)

  saved_same : (cfg : C) (k text : Bytes) → kv.get_value (saved_in cfg k text) k ≡ some text
  saved_same cfg k text =
      kv.get_value-save_as (kv.set_value cfg k text) k ∙ kv.get_value-set_value cfg k text

  saved_other :
      (cfg : C) (k k' text : Bytes)
      → k ≢ k'
      → kv.get_value (saved_in cfg k text) k' ≡ kv.get_value cfg k'
  saved_other cfg k k' text n =
      kv.get_value-save_as (kv.set_value cfg k text) k' ∙ kv.get_value-other cfg k k' text n

  enter-eq :
      (t : Tracker C) (cfg : C) (r : Bool × Mask)
      → save_calibration kv t ≡ done cfg
      → new_mask kv t.state t.masked cfg ≡ r
      → key_calibrating_handle kv 13 t ≡ done (with_mask kv t cfg r)
  unfolding key_calibrating_handle
  enter-eq t cfg r e f =
      ap (λ m. m >>= λ c. done (with_mask kv t c (new_mask kv t.state t.masked c))) e
      ∙ ap (λ x. done (with_mask kv t cfg x)) f

  save_calibration-many :
      (t : Tracker C)
      → t.state ≡ calibrating2
      → 4 ≤ length t.calibrations
      → length (print_points t.calibrations) < 4096
      → save_calibration kv t
        ≡ done (saved_in t.cfg (codes "calibration_data2") (print_points t.calibrations))
  unfolding save_calibration
  save_calibration-many t e many fits =
      let key : data_key t.state ≡ codes "calibration_data2" = ap data_key e in
      ground (arith, many, fits)
      ∙ ap (λ k. done (saved_in t.cfg k (print_points t.calibrations))) key

  -- Enter while the first line is being marked, with at least four points whose coordinates are `int`s
  -- and whose text is shorter than 4096 bytes: the points are saved, load_roi reads back exactly
  -- these, with those of the second line behind them as they were, the mask is white in these two
  -- areas (in the second one if it has four points) and black elsewhere, and is in use.
  pub key_calibrating_handle-IsSaved :
      (t : Tracker C)
      → t.state ≡ calibrating2
      → 4 ≤ length t.calibrations
      → AllInt t.calibrations
      → length (print_points t.calibrations) < 4096
      → (t' : Tracker C) × (key_calibrating_handle kv 13 t ≡ done t') × IsSaved kv t t'
  unfolding load_roi new_mask
  key_calibrating_handle-IsSaved t e many ints fits =
      let text = print_points t.calibrations in
      let cfg = saved_in t.cfg (codes "calibration_data2") text in
      let first : points_at kv cfg (codes "calibration_data2") ≡ t.calibrations =
        ap read_points (saved_same t.cfg (codes "calibration_data2") text)
        ∙ read_printed t.calibrations ints in
      let second : points_at kv cfg (codes "calibration_data3")
          ≡ points_at kv t.cfg (codes "calibration_data3") =
        ap read_points (
          saved_other t.cfg (codes "calibration_data2") (codes "calibration_data3") text
            two_three) in
      let more = points_at kv t.cfg (codes "calibration_data3") in
      let mask : new_mask kv t.state t.masked cfg ≡ (true, outlines t.calibrations more) =
        ap (λ s. new_mask kv s t.masked cfg) e
        ∙ ap₂ (λ ps qs. build_mask t.masked ps (some qs)) first second
        ∙ build_mask-outlines t.masked t.calibrations more many in
      (
        with_mask kv t cfg (true, outlines t.calibrations more),
        enter-eq t cfg _ (save_calibration-many t e many fits) mask,
        record { read_back = ap₂ (◌++◌) first second; shown = refl; in_use = refl; back = refl },
      )

  save_calibration-few :
      (t : Tracker C)
      → length t.calibrations < 4
      → save_calibration kv t ≡ done (saved_in t.cfg (codes "calibration_data") [])
  unfolding save_calibration
  save_calibration-few t few = ground (arith, few)

  -- Enter with fewer than four points, which is to remove the area being marked: what is removed is
  -- always the area of 'c', while those of the two lines stay; and where that is the area being
  -- marked and a mask had been built from it, the new mask is black everywhere, and is in use.
  pub key_calibrating_handle-few :
      (t : Tracker C)
      → length t.calibrations < 4
      → (t' : Tracker C) × (key_calibrating_handle kv 13 t ≡ done t')
        × (points_at kv t'.cfg (codes "calibration_data") ≡ [])
        × (load_roi kv t'.cfg ≡ load_roi kv t.cfg)
        × (t.state ≡ calibrating → t.masked ≡ true → t'.img_mask ≡ some black)
        × (t'.enable_mask ≡ true)
  unfolding load_roi new_mask
  key_calibrating_handle-few t few =
      let cfg = saved_in t.cfg (codes "calibration_data") [] in
      let none_left : points_at kv cfg (codes "calibration_data") ≡ [] =
        ap read_points (saved_same t.cfg (codes "calibration_data") [])
        ∙ unfold print_points in (read_printed [] tt) in
      (
        with_mask kv t cfg (new_mask kv t.state t.masked cfg),
        enter-eq t cfg _ (save_calibration-few t few) refl,
        none_left,
        ap₂ (λ x y. read_points x ++ read_points y)
            (saved_other t.cfg (codes "calibration_data") (codes "calibration_data2") [] one_two)
            (saved_other t.cfg (codes "calibration_data") (codes "calibration_data3") [] one_three),
        (λ e m.
            ap (λ (r : Bool × Mask). some r.1)
              (ap₂ (λ s b. new_mask kv s b cfg) e m
                ∙ ap (λ ps. build_mask true ps none) none_left
                ∙ build_mask-black [] (omega arith))),
        refl,
      )
