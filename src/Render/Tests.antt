-- ===== src/Render/Tests.antt =====
-- Tests of the renderer of kernel-lib/src/render.rs.
use lemola_osv.Base.{◌≡◌, refl, panic}
use lemola_osv.Console.{white}
use lemola_osv.Render.{Vector2D, outline_x, outline_y, draw_rect_outline}

abbrev corner : Vector2D
corner = record { x = 5; y = 7 }

abbrev extent : Vector2D
extent = record { x = 3; y = 4 }

draw_rect_outline_test :
    draw_rect_outline (record { x = 0; y = 7 }) (record { x = 0; y = 4 }) white ≡ panic
unfolding draw_rect_outline outline_x outline_y
draw_rect_outline_test = refl
