-- ===== src/Tests/Urls.antt =====
-- A URL on the Unicode tables in memory.
use ch_tech_landing_page_bac.Base.{◌≡◌, refl}
use ch_tech_landing_page_bac.Text.{text}
use ch_tech_landing_page_bac.Domain.ValueObjects.{Url, make_url}
use ch_tech_landing_page_bac.Domain.ValueObjects.Urls.{IsHttpUrl, make_url-IsHttpUrl}
use ch_tech_landing_page_bac.Tests.Memory.{memory}

-- The scheme may be in capitals, and what stands before it is kept.
abbrev home : Url
home = record { value = text " HTTPS://a.b/c" }

make_url-IsHttpUrl_example :
    (home.value ≡ text " HTTPS://a.b/c") × IsHttpUrl (text " HTTPS://a.b/c")
unfolding make_url
make_url-IsHttpUrl_example = make_url-IsHttpUrl memory.unicode (text " HTTPS://a.b/c") home refl
