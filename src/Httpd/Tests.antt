-- ===== src/Httpd/Tests.antt =====
-- The web server, with a camera that makes JPEG.
use esp32_mesh.Common.{
  ◌⊎◌, ◌≡◌, ◌≤◌, ◌+◌, refl, true, false, List, [], ◌∷◌, none, some, arith, length,
}
use esp32_mesh.Config.{Files}
use esp32_mesh.Config.Text.{Bytes}
use esp32_mesh.Httpd.Control.Names.{IsName, cmd_handler-IsName}
use esp32_mesh.Config.Items.{codes}
use esp32_mesh.Httpd.Filter.{Filter, ra_filter_init}
use esp32_mesh.Httpd.Filter.Average.{ra_filter_runs, averages, ra_filter_runs-averages}
use esp32_mesh.Httpd.Control.{ControlSeen, Query, not_found, server_error, key_value, cmd_handler}
use esp32_mesh.Httpd.Control.Laws.{asks}
use esp32_mesh.Httpd.Stream.{StreamSeen, StreamCall, stream_rounds}
use esp32_mesh.Httpd.Stream.Laws.{IsBalanced, stream_rounds-IsBalanced}
use esp32_mesh.Httpd.Status.{StatusField, Number, status_text}
use esp32_mesh.Httpd.Status.Bounds.{length-status_text}

ra_filter_runs-averages_example :
    ra_filter_runs (ra_filter_init true 2) (10 ∷ 20 ∷ 40 ∷ [])
    ≡ some (averages 2 [] (10 ∷ 20 ∷ 40 ∷ []))
ra_filter_runs-averages_example =
    ra_filter_runs-averages 1 (10 ∷ 20 ∷ 40 ∷ []) (omega arith, (omega arith, (omega arith, tt)))

-- 10, 15 and 30
averages_test : averages 2 [] (10 ∷ 20 ∷ 40 ∷ []) ≡ 10 ∷ 15 ∷ 30 ∷ []
averages_test = refl

abbrev camera : ControlSeen
camera = record { jpeg = true; accepts = λ s v. true; opened = true; renamed = true; junk = [] }

abbrev files : Files
files = record { config = none; temp = none }

-- Any name but those of the settings is refused.
abbrev unknown : Query
unknown = asks 5 (codes "zoom") (codes "12")

-- A round whose picture goes out, and one whose picture does not.
abbrev pictures : List StreamSeen
pictures =
    record {
      camera = some (record { jpeg = true; bytes = 1 ∷ 2 ∷ [] });
      encoded = none;
      part_sent = true;
      picture_sent = true;
      boundary_sent = true;
      time = 90000;
    }
    ∷ record {
      camera = some (record { jpeg = false; bytes = 1 ∷ 2 ∷ [] });
      encoded = some (3 ∷ []);
      part_sent = true;
      picture_sent = false;
      boundary_sent = true;
      time = 180000;
    }
    ∷ []

stream_rounds-IsBalanced_example :
    (r : List StreamCall × Filter) × ((stream_rounds (ra_filter_init true 20) 0 pictures ≡ some r)
      × IsBalanced r.0)
stream_rounds-IsBalanced_example = stream_rounds-IsBalanced true 0 pictures

abbrev numbers : StatusField → Number
numbers f = record { negative = true; magnitude = 4294967295 }

length-status_text_example : length (status_text numbers files) + 1 ≤ 1024
length-status_text_example = length-status_text numbers files

cmd_handler-IsName_example :
    (cmd_handler camera unknown files ≡ ([], not_found, files))
    ⊎ ((cmd_handler camera unknown files ≡ ([], server_error, files))
        ⊎ ((variable : Bytes) × ((value : Bytes) × ((key_value (some (codes "zoom"))
                  ≡ some variable)
                × (key_value (some (codes "12")) ≡ some value)
                × IsName variable))))
cmd_handler-IsName_example = cmd_handler-IsName camera unknown files
