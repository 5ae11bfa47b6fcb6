-- ===== src/Http/Tables.antt =====
-- The two tables of source/Http/http.hpp: descriptions of status codes, and MIME types by suffix.
use flux_a_high_performance.Prelude.{ℕ, List, [], ◌∷◌, codes}

abbrev pub statu_msg : List (ℕ × List ℕ)
statu_msg =
    (100, codes "Continue")
    ∷ (101, codes "Switching Protocol")
    ∷ (102, codes "Processing")
    ∷ (103, codes "Early Hints")
    ∷ (200, codes "OK")
    ∷ (201, codes "Created")
    ∷ (202, codes "Accepted")
    ∷ (203, codes "Non-Authoritative Information")
    ∷ (204, codes "No Content")
    ∷ (205, codes "Reset Content")
    ∷ (206, codes "Partial Content")
    ∷ (207, codes "Multi-Status")
    ∷ (208, codes "Already Reported")
    ∷ (226, codes "IM Used")
    ∷ (300, codes "Multiple Choice")
    ∷ (301, codes "Moved Permanently")
    ∷ (302, codes "Found")
    ∷ (303, codes "See Other")
    ∷ (304, codes "Not Modified")
    ∷ (305, codes "Use Proxy")
    ∷ (306, codes "unused")
    ∷ (307, codes "Temporary Redirect")
    ∷ (308, codes "Permanent Redirect")
    ∷ (400, codes "Bad Request")
    ∷ (401, codes "Unauthorized")
    ∷ (402, codes "Payment Required")
    ∷ (403, codes "Forbidden")
    ∷ (404, codes "Not Found")
    ∷ (405, codes "Method Not Allowed")
    ∷ (406, codes "Not Acceptable")
    ∷ (407, codes "Proxy Authentication Required")
    ∷ (408, codes "Request Timeout")
    ∷ (409, codes "Conflict")
    ∷ (410, codes "Gone")
    ∷ (411, codes "Length Required")
    ∷ (412, codes "Precondition Failed")
    ∷ (413, codes "Payload Too Large")
    ∷ (414, codes "URI Too Long")
    ∷ (415, codes "Unsupported Media Type")
    ∷ (416, codes "Range Not Satisfiable")
    ∷ (417, codes "Expectation Failed")
    ∷ (418, codes "I'm a teapot")
    ∷ (421, codes "Misdirected Request")
    ∷ (422, codes "Unprocessable Entity")
    ∷ (423, codes "Locked")
    ∷ (424, codes "Failed Dependency")
    ∷ (425, codes "Too Early")
    ∷ (426, codes "Upgrade Required")
    ∷ (428, codes "Precondition Required")
    ∷ (429, codes "Too Many Requests")
    ∷ (431, codes "Request Header Fields Too Large")
    ∷ (451, codes "Unavailable For Legal Reasons")
    ∷ (501, codes "Not Implemented")
    ∷ (502, codes "Bad Gateway")
    ∷ (503, codes "Service Unavailable")
    ∷ (504, codes "Gateway Timeout")
    ∷ (505, codes "HTTP Version Not Supported")
    ∷ (506, codes "Variant Also Negotiates")
    ∷ (507, codes "Insufficient Storage")
    ∷ (508, codes "Loop Detected")
    ∷ (510, codes "Not Extended")
    ∷ (511, codes "Network Authentication Required")
    ∷ []

abbrev pub mime_msg : List (List ℕ × List ℕ)
mime_msg =
    (codes ".aac", codes "audio/aac")
    ∷ (codes ".abw", codes "application/x-abiword")
    ∷ (codes ".arc", codes "application/x-freearc")
    ∷ (codes ".avi", codes "video/x-msvideo")
    ∷ (codes ".azw", codes "application/vnd.amazon.ebook")
    ∷ (codes ".bin", codes "application/octet-stream")
    ∷ (codes ".bmp", codes "image/bmp")
    ∷ (codes ".bz", codes "application/x-bzip")
    ∷ (codes ".bz2", codes "application/x-bzip2")
    ∷ (codes ".csh", codes "application/x-csh")
    ∷ (codes ".css", codes "text/css")
    ∷ (codes ".csv", codes "text/csv")
    ∷ (codes ".doc", codes "application/msword")
    ∷ (
      codes ".docx",
      codes "application/vnd.openxmlformats-officedocument.wordprocessingml.document",
    )
    ∷ (codes ".eot", codes "application/vnd.ms-fontobject")
    ∷ (codes ".epub", codes "application/epub+zip")
    ∷ (codes ".gif", codes "image/gif")
    ∷ (codes ".htm", codes "text/html")
    ∷ (codes ".html", codes "text/html")
    ∷ (codes ".ico", codes "image/vnd.microsoft.icon")
    ∷ (codes ".ics", codes "text/calendar")
    ∷ (codes ".jar", codes "application/java-archive")
    ∷ (codes ".jpeg", codes "image/jpeg")
    ∷ (codes ".jpg", codes "image/jpeg")
    ∷ (codes ".js", codes "text/javascript")
    ∷ (codes ".json", codes "application/json")
    ∷ (codes ".jsonld", codes "application/ld+json")
    ∷ (codes ".mid", codes "audio/midi")
    ∷ (codes ".midi", codes "audio/x-midi")
    ∷ (codes ".mjs", codes "text/javascript")
    ∷ (codes ".mp3", codes "audio/mpeg")
    ∷ (codes ".mpeg", codes "video/mpeg")
    ∷ (codes ".mpkg", codes "application/vnd.apple.installer+xml")
    ∷ (codes ".odp", codes "application/vnd.oasis.opendocument.presentation")
    ∷ (codes ".ods", codes "application/vnd.oasis.opendocument.spreadsheet")
    ∷ (codes ".odt", codes "application/vnd.oasis.opendocument.text")
    ∷ (codes ".oga", codes "audio/ogg")
    ∷ (codes ".ogv", codes "video/ogg")
    ∷ (codes ".ogx", codes "application/ogg")
    ∷ (codes ".otf", codes "font/otf")
    ∷ (codes ".png", codes "image/png")
    ∷ (codes ".pdf", codes "application/pdf")
    ∷ (codes ".ppt", codes "application/vnd.ms-powerpoint")
    ∷ (
      codes ".pptx",
      codes "application/vnd.openxmlformats-officedocument.presentationml.presentation",
    )
    ∷ (codes ".rar", codes "application/x-rar-compressed")
    ∷ (codes ".rtf", codes "application/rtf")
    ∷ (codes ".sh", codes "application/x-sh")
    ∷ (codes ".svg", codes "image/svg+xml")
    ∷ (codes ".swf", codes "application/x-shockwave-flash")
    ∷ (codes ".tar", codes "application/x-tar")
    ∷ (codes ".tif", codes "image/tiff")
    ∷ (codes ".tiff", codes "image/tiff")
    ∷ (codes ".ttf", codes "font/ttf")
    ∷ (codes ".txt", codes "text/plain")
    ∷ (codes ".vsd", codes "application/vnd.visio")
    ∷ (codes ".wav", codes "audio/wav")
    ∷ (codes ".weba", codes "audio/webm")
    ∷ (codes ".webm", codes "video/webm")
    ∷ (codes ".webp", codes "image/webp")
    ∷ (codes ".woff", codes "font/woff")
    ∷ (codes ".woff2", codes "font/woff2")
    ∷ (codes ".xhtml", codes "application/xhtml+xml")
    ∷ (codes ".xls", codes "application/vnd.ms-excel")
    ∷ (codes ".xlsx", codes "application/vnd.openxmlformats-officedocument.spreadsheetml.sheet")
    ∷ (codes ".xml", codes "application/xml")
    ∷ (codes ".xul", codes "application/vnd.mozilla.xul+xml")
    ∷ (codes ".zip", codes "application/zip")
    ∷ (codes ".3gp", codes "video/3gpp")
    ∷ (codes ".3g2", codes "video/3gpp2")
    ∷ (codes ".7z", codes "application/x-7z-compressed")
    ∷ []
