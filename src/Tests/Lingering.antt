-- ===== src/Tests/Lingering.antt =====
-- A peer whose certificate is revoked while it is connected.
use orgsync.Base.{◌≡◌, ◌≢◌, refl, true, [], ◌∷◌, List, codes, find, compare_list}
use orgsync.Node.{Runtime, hello, push, denied, authed_of, on_request}
use orgsync.Node.Gate.{Event, requested, run}
use orgsync.Node.Lingering.{is_in, run-is_in}
use orgsync.Tests.Toy.{world, Rows}
use orgsync.Tests.Trust.{key, cert, newer}
use orgsync.Tests.Network.{node}

abbrev hosting : Runtime Rows
hosting = record node { authed = (key, authed_of world cert true 601) ∷ [] }

abbrev news : List (Event world)
news = requested (codes "other") (hello 1 cert newer true) 620 621 ∷ []

connected : is_in world key hosting ≡ true
unfolding find compare_list
connected = refl

run-is_in_example :
    (is_in world key (run world hosting news) ≡ true)
    × ((on_request world (run world hosting news) key (push []) 630 631).1.0 ≢ denied)
run-is_in_example = run-is_in world key hosting news [] 630 631 tt connected
