-- ===== src/Client/Peers/Examples.antt =====
-- A table of two peers.
use netso.Common.{◌≡◌, refl, [], ◌∷◌, map, length}
use netso.Common.Bytes.{codes}
use netso.Registry.{Peer}
use netso.Client.Peers.{listing}
use netso.Client.Peers.Table.{read_table, IsPlain, read_table-listing}

abbrev dev : Peer
dev = record { network = codes "office"; name = codes "dev"; pubkey = codes "a2V5" }

abbrev box : Peer
box = record {
  network = codes "office";
  name = codes "a-box-under-a-long-name";
  pubkey = codes "Ym94";
}

dev-IsPlain : IsPlain dev
dev-IsPlain = record {
  name_spaces = (refl, (refl, (refl, tt)));
  name_lines = (refl, (refl, (refl, tt)));
  key_lines = (refl, (refl, (refl, (refl, tt))));
  key_space = refl;
}

-- A name that is wider than its column.
box-IsPlain : IsPlain box
box-IsPlain = record {
  name_spaces = (
    refl,
    (
      refl,
      (
        refl,
        (
          refl,
          (
            refl,
            (
              refl,
              (
                refl,
                (
                  refl,
                  (
                    refl,
                    (
                      refl,
                      (
                        refl,
                        (
                          refl,
                          (
                            refl,
                            (
                              refl,
                              (
                                refl,
                                (refl, (refl, (refl, (refl, (refl, (refl, (refl, (refl, tt)))))))),
                              ),
                            ),
                          ),
                        ),
                      ),
                    ),
                  ),
                ),
              ),
            ),
          ),
        ),
      ),
    ),
  );
  name_lines = (
    refl,
    (
      refl,
      (
        refl,
        (
          refl,
          (
            refl,
            (
              refl,
              (
                refl,
                (
                  refl,
                  (
                    refl,
                    (
                      refl,
                      (
                        refl,
                        (
                          refl,
                          (
                            refl,
                            (
                              refl,
                              (
                                refl,
                                (refl, (refl, (refl, (refl, (refl, (refl, (refl, (refl, tt)))))))),
                              ),
                            ),
                          ),
                        ),
                      ),
                    ),
                  ),
                ),
              ),
            ),
          ),
        ),
      ),
    ),
  );
  key_lines = (refl, (refl, (refl, (refl, tt))));
  key_space = refl;
}

read_table-listing_example :
    read_table (listing length (λ s. s) (codes "office") (dev ∷ box ∷ []))
    ≡ map (λ q. (q.name, q.pubkey)) (dev ∷ box ∷ [])
read_table-listing_example =
    read_table-listing length (λ s. s) (codes "office") dev (box ∷ [])
      (dev-IsPlain, (box-IsPlain, tt))
