-- ===== src/Shell/Listing/Tests.antt =====
-- The listing of a romdisk with one file.
use mono.Line.Echo.{Shows-in_memory}
use mono.Line.Tests.{editing}
use mono.Memory.{Memory, HasString, read16, read32}
use mono.Prelude.{◌-◌, refl, inl, [], ◌∷◌, arith, leb, ltb, ◌==◌, ◌&&◌, if◌then◌else◌, get_or}
use mono.Process.{Machine}
use mono.Shell.Listing.Rows.{Lists, Listable}
use mono.Shell.Listing.Table.{put_rows}
use mono.Shell.Listing.Whole.{title_text, heading_text, Listed, display_romdisk-Lists}
use mono.Shell.Tests.{filled, image, machine, only_file}
use mono.Shell.{Image, display_romdisk}
use mono.Terminal.Char.{put_all_on_sheet}
use mono.Terminal.Sheet.{put_on_sheet}
use mono.Terminal.Tests.{blank, sized, small}

abbrev texts : Memory
texts a =
    if leb 0x3200 a && ltb a 0x3219
    then get_or title_text (a - 0x3200) 0
    else if leb 0x3300 a && ltb a 0x331A
    then get_or heading_text (a - 0x3300) 0
    else if a == 0x3400
    then 10
    else filled a

abbrev listing_image : Image
listing_image = record image { title = 0x3200; heading = 0x3300; newline = 0x3400 }

abbrev listing_machine : Machine
listing_machine = record machine { display = record small { memory = texts } }

title_there : HasString texts 0x3200 title_text
title_there = (
  refl,
  omega arith,
  (
    refl,
    omega arith,
    (
      refl,
      omega arith,
      (
        refl,
        omega arith,
        (
          refl,
          omega arith,
          (
            refl,
            omega arith,
            (
              refl,
              omega arith,
              (
                refl,
                omega arith,
                (
                  refl,
                  omega arith,
                  (
                    refl,
                    omega arith,
                    (
                      refl,
                      omega arith,
                      (
                        refl,
                        omega arith,
                        (
                          refl,
                          omega arith,
                          (
                            refl,
                            omega arith,
                            (
                              refl,
                              omega arith,
                              (
                                refl,
                                omega arith,
                                (
                                  refl,
                                  omega arith,
                                  (
                                    refl,
                                    omega arith,
                                    (
                                      refl,
                                      omega arith,
                                      (
                                        refl,
                                        omega arith,
                                        (
                                          refl,
                                          omega arith,
                                          (
                                            refl,
                                            omega arith,
                                            (
                                              refl,
                                              omega arith,
                                              (refl, omega arith, (refl, omega arith, refl)),
                                            ),
                                          ),
                                        ),
                                      ),
                                    ),
                                  ),
                                ),
                              ),
                            ),
                          ),
                        ),
                      ),
                    ),
                  ),
                ),
              ),
            ),
          ),
        ),
      ),
    ),
  ),
)

heading_there : HasString texts 0x3300 heading_text
heading_there = (
  refl,
  omega arith,
  (
    refl,
    omega arith,
    (
      refl,
      omega arith,
      (
        refl,
        omega arith,
        (
          refl,
          omega arith,
          (
            refl,
            omega arith,
            (
              refl,
              omega arith,
              (
                refl,
                omega arith,
                (
                  refl,
                  omega arith,
                  (
                    refl,
                    omega arith,
                    (
                      refl,
                      omega arith,
                      (
                        refl,
                        omega arith,
                        (
                          refl,
                          omega arith,
                          (
                            refl,
                            omega arith,
                            (
                              refl,
                              omega arith,
                              (
                                refl,
                                omega arith,
                                (
                                  refl,
                                  omega arith,
                                  (
                                    refl,
                                    omega arith,
                                    (
                                      refl,
                                      omega arith,
                                      (
                                        refl,
                                        omega arith,
                                        (
                                          refl,
                                          omega arith,
                                          (
                                            refl,
                                            omega arith,
                                            (
                                              refl,
                                              omega arith,
                                              (
                                                refl,
                                                omega arith,
                                                (refl, omega arith, (refl, omega arith, refl)),
                                              ),
                                            ),
                                          ),
                                        ),
                                      ),
                                    ),
                                  ),
                                ),
                              ),
                            ),
                          ),
                        ),
                      ),
                    ),
                  ),
                ),
              ),
            ),
          ),
        ),
      ),
    ),
  ),
)

only_file-Listable : Listable only_file
only_file-Listable = record {
  named = omega arith;
  short = omega arith;
  shown = (inl (omega arith), tt);
  some_bytes = omega arith;
  below = omega arith;
}

texts-Listed :
    Listed 2 3 sized
      (omega arith)
      listing_image
      (omega arith)
      (omega arith)
      64
      (omega arith)
      (only_file ∷ [])
      texts
unfolding read16 read32
texts-Listed = record {
  title = title_there;
  title_clear = λ i l. omega arith;
  heading = heading_there;
  heading_clear = λ i l. omega arith;
  newline = (refl, omega arith, refl);
  newline_clear = λ i l. omega arith;
  count = refl;
  few = omega arith;
  table = ((refl, omega arith, refl), omega arith, refl, refl, tt);
  table_clear = λ a l u. omega arith;
}

display_romdisk-Lists_example :
    Lists 2 3 0x800 listing_machine (display_romdisk 64 listing_image listing_machine) (
      put_on_sheet 2 3 10 (
        put_rows 2 3
          (only_file ∷ [])
          (put_all_on_sheet 2 3 heading_text (put_all_on_sheet 2 3 title_text blank))))
display_romdisk-Lists_example =
    display_romdisk-Lists 2 3 sized (omega arith) listing_image (omega arith) (omega arith) 64
      (omega arith) (only_file ∷ []) (4 ∷ 7 ∷ []) listing_machine blank (only_file-Listable, tt)
      texts-Listed
      (record {
        shows = Shows-in_memory 2 3 (4 ∷ 7 ∷ []) (λ m. texts) small blank editing.console.shows;
        placed = editing.console.placed;
        saved = editing.console.saved;
      })
